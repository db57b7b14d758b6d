-- ===== src/App/XShell/Frames.antt =====
-- `(*xshellProxy).Read`: the requests that Xshell sends, as the agent server reads them.
use keybridge.Base.{
  ℕ, ◌≤◌, ◌<◌, ◌≡◌, refl, subst, List, [], ◌∷◌, ◌++◌, false, Option, none, some, arith,
  append_assoc, length, take, drop, length-append, length-drop, take-append-drop, All, ltb, ◌==◌,
  if◌then◌else◌, ◌∙◌, ◌&&◌, not,
}
use keybridge.Base.Outcome.{Error, Result, ok, err, panic}
use keybridge.Base.Bytes.{big_endian, put_big_endian, big_endian-put_self, length-put_big_endian}
use keybridge.Base.Conn.{Conn, read_full-append}
use keybridge.App.XShell.{
  XShellProxy, SshWire, read, after_head, serve_buf, pad_sign, max_agent_response_bytes,
}

-- A request on the wire: the length of its body, and the body.
abbrev pub frame : List ℕ → List ℕ
frame body = put_big_endian (length body) ++ body

-- The body that the server is to see: a sign request that does not decode is given flags of 0.
abbrev pub repaired : SshWire → List ℕ → List ℕ
repaired wire [] = []
repaired wire (code ∷ rest) =
    if (code == 13) && not (wire.is_sign_request (code ∷ rest))
    then (code ∷ rest) ++ 0 ∷ 0 ∷ 0 ∷ 0 ∷ []
    else code ∷ rest

abbrev pub IsBody : List ℕ → Type 0
IsBody body = (0 < length body) × (length body ≤ 16777216)

-- What Xshell sends, and what the server is to read, for a list of bodies.
abbrev pub frames : List (List ℕ) → List ℕ
frames [] = []
frames (body ∷ bodies) = frame body ++ frames bodies

abbrev pub repaired_frames : SshWire → List (List ℕ) → List ℕ
repaired_frames wire [] = []
repaired_frames wire (body ∷ bodies) = frame (repaired wire body) ++ repaired_frames wire bodies

abbrev drained : Result (List ℕ) → List ℕ × Option Error → List ℕ × Option Error
drained (ok bs) (more, e) = (bs ++ more, e)
drained (err e) later = ([], some e)
drained panic later = ([], none)

-- A server that reads with buffers of the given sizes until a read fails.
abbrev pub drain : SshWire → List ℕ → XShellProxy → List ℕ × Option Error
drain wire [] s = ([], none)
drain wire (n ∷ ns) s = drained (read wire n s).0 (drain wire ns (read wire n s).1)

pad_sign-repaired :
    (wire : SshWire) (body : List ℕ)
    → IsBody body
    → pad_sign wire (length body) body ≡ (length (repaired wire body), repaired wire body)
unfolding pad_sign
pad_sign-repaired wire [] h = absurd (omega arith)
pad_sign-repaired wire (b ∷ bs) h = ground (arith, length-append bs (0 ∷ 0 ∷ 0 ∷ 0 ∷ []))

-- One read, by what the proxy holds.
read_buffered :
    (wire : SshWire) (n b : ℕ) (bs : List ℕ) (s : XShellProxy)
    → s.buf ≡ b ∷ bs
    → read wire n s ≡ (ok (take n s.buf), record s { buf = drop n s.buf })
unfolding read
read_buffered wire n b bs s e = rw (e, read) (rw (← e))

read_end :
    (wire : SshWire) (n : ℕ) (s : XShellProxy)
    → s.buf ≡ []
    → s.conn.incoming ≡ []
    → (read wire n s).0 ≡ err s.conn.end_error
unfolding read
read_end wire n s e none_left = ground arith

after_head-frame :
    (wire : SshWire) (n : ℕ) (head body rest : List ℕ) (c : Conn) (s : XShellProxy)
    → big_endian head ≡ length body
    → IsBody body
    → c.incoming ≡ body ++ rest
    → after_head wire n (head, none, c) s
      ≡ serve_buf n
          (record s { conn = record c { incoming = rest }; buf = frame (repaired wire body) })
unfolding after_head
after_head-frame wire n head body rest c s d h i =
    let not_zero : (length body == 0) ≡ false = ground arith in
    let not_large : ltb max_agent_response_bytes (length body) ≡ false = ground arith in
    rw (
      d,
      not_zero,
      not_large,
      read_full-append (length body) body rest c refl i,
      pad_sign-repaired wire body h,
    )

read-frame :
    (wire : SshWire) (n : ℕ) (body rest : List ℕ) (s : XShellProxy)
    → s.buf ≡ []
    → s.conn.incoming ≡ frame body ++ rest
    → IsBody body
    → read wire n s ≡ (
      ok (take n (frame (repaired wire body))),
      record s {
        conn = record (s.conn) { incoming = rest };
        buf = drop n (frame (repaired wire body));
      },
    )
unfolding read
read-frame wire n body rest s e i h =
    rw (e, read)
      (rw
        (read_full-append 4 (put_big_endian (length body)) (body ++ rest) s.conn
          (length-put_big_endian _) (i ∙ append_assoc _ body rest))
        (after_head-frame wire n (put_big_endian (length body)) body rest _ (record s { buf = [] })
          (big_endian-put_self (length body) (omega arith)) h refl))

drain_step :
    (wire : SshWire) (n : ℕ) (ns : List ℕ) (s t : XShellProxy) (xs out : List ℕ) (e : Option Error)
    → read wire n s ≡ (ok (take n xs), t)
    → drain wire ns t ≡ (drop n xs ++ out, e)
    → drain wire (n ∷ ns) s ≡ (xs ++ out, e)
drain_step wire n ns s t xs out e r later =
    rw (r, later) (rw (← append_assoc, take-append-drop n xs))

drop_shrinks :
    (n : ℕ) (xs out : List ℕ)
    → 0 < n
    → 0 < length xs
    → length (drop n xs ++ out) < length (xs ++ out)
drop_shrinks n xs out h k =
    omega (arith, length-drop n xs, length-append xs out, length-append (drop n xs) out)

drain-frames :
    (wire : SshWire) (ns : List ℕ) (buf : List ℕ) (bodies : List (List ℕ)) (s : XShellProxy)
    → s.buf ≡ buf
    → s.conn.incoming ≡ frames bodies
    → All IsBody bodies
    → All (λ n. 0 < n) ns
    → length (buf ++ repaired_frames wire bodies) < length ns
    → drain wire ns s ≡ (buf ++ repaired_frames wire bodies, some s.conn.end_error)
drain-frames wire [] buf bodies s e i h pos enough = absurd (omega arith)
drain-frames wire (n ∷ ns) [] [] s e i h pos enough = rw (read_end wire n s e i)
drain-frames wire (n ∷ ns) [] (body ∷ bodies) s e i h pos enough =
    let sent = frame (repaired wire body) in
    let some_bytes : 0 < length sent = omega (
      arith,
      length-put_big_endian (length (repaired wire body)),
      length-append (put_big_endian (length (repaired wire body))) (repaired wire body),
    ) in
    drain_step wire n ns s _ sent (repaired_frames wire bodies) _
      (read-frame wire n body (frames bodies) s e i h.0)
      (drain-frames wire ns (drop n sent) bodies _ refl refl h.1 pos.1
        (omega (arith, drop_shrinks n sent (repaired_frames wire bodies))))
drain-frames wire (n ∷ ns) (b ∷ bs) bodies s e i h pos enough =
    drain_step wire n ns s _ (b ∷ bs) (repaired_frames wire bodies) _
      (subst (λ (x : List ℕ). read wire n s ≡ (ok (take n x), record s { buf = drop n x })) e
        (read_buffered wire n b bs s e))
      (drain-frames wire ns (drop n (b ∷ bs)) bodies _ refl i h pos.1
        (omega (arith, drop_shrinks n (b ∷ bs) (repaired_frames wire bodies))))

-- With nothing buffered, a server whose buffers are never empty, and that reads often enough, reads
-- exactly the requests that Xshell sent, in their order and whatever the sizes of the buffers, each
-- with its length in front, and a sign request that does not decode with four zero bytes behind it;
-- then it sees the end of the connection. The bodies have at least one byte and at most 16 MiB.
pub drain_requests :
    (wire : SshWire) (ns : List ℕ) (bodies : List (List ℕ)) (s : XShellProxy)
    → s.buf ≡ []
    → s.conn.incoming ≡ frames bodies
    → All IsBody bodies
    → All (λ n. 0 < n) ns
    → length (repaired_frames wire bodies) < length ns
    → drain wire ns s ≡ (repaired_frames wire bodies, some s.conn.end_error)
drain_requests wire ns bodies s e i h pos enough = drain-frames wire ns [] bodies s e i h pos enough
