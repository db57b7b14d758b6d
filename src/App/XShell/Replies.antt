-- ===== src/App/XShell/Replies.antt =====
-- `(*xshellProxy).Write`: the agent server writes a reply as its length and its body, and Xshell is
-- sent the whole reply by one write.
use keybridge.Base.{
  ap, ℕ, ◌+◌, ◌<◌, ◌^◌, ◌≡◌, refl, List, [], ◌∷◌, ◌++◌, some, arith, flatten, append_assoc,
  append-nil, length, length-append, All,
}
use keybridge.Base.Outcome.{Error, errorf, ok, err, Exec, continue}
use keybridge.Base.Bytes.{big_endian, put_big_endian, big_endian-put_self, length-put_big_endian}
use keybridge.App.XShell.{XShellProxy, write_reply}

-- The writes of a server that goes on while they succeed.
abbrev pub write_all : List (List ℕ) → Exec XShellProxy (Unit {0})
write_all [] s = (ok tt, s)
write_all (p ∷ ps) s = let (r, s') = write_reply p s in continue r (λ _. write_all ps) s'

-- What is left after a reply was sent.
abbrev pub sent_reply : XShellProxy → List ℕ → XShellProxy
sent_reply s reply = record s {
  conn = record (s.conn) { sent = s.conn.sent ++ reply ∷ [] };
  wlength = 0;
  wbuf = [];
}

write_head :
    (p : List ℕ) (s : XShellProxy)
    → s.wlength ≡ 0
    → length p ≡ 4
    → write_reply p s ≡ (ok (length p), record s { wlength = big_endian p + 4; wbuf = s.wbuf ++ p })
unfolding write_reply
write_head p s h l = ground arith

write_more :
    (p : List ℕ) (s : XShellProxy)
    → length (s.wbuf ++ p) < s.wlength
    → write_reply p s ≡ (ok (length p), record s { wbuf = s.wbuf ++ p })
unfolding write_reply
write_more p s h = ground arith

write_last :
    (p : List ℕ) (s : XShellProxy)
    → 0 < s.wlength
    → length (s.wbuf ++ p) ≡ s.wlength
    → s.conn.write_errors ≡ []
    → write_reply p s ≡ (ok (length p), sent_reply s (s.wbuf ++ p))
unfolding write_reply
write_last p s h l w = ground arith

write_refused :
    (p : List ℕ) (e : Error) (s : XShellProxy)
    → 0 < s.wlength
    → length (s.wbuf ++ p) ≡ s.wlength
    → s.conn.write_errors ≡ some e ∷ []
    → write_reply p s ≡ (
      err e,
      record s { conn = record (s.conn) { write_errors = [] }; wlength = 0; wbuf = s.wbuf ++ p },
    )
unfolding write_reply
write_refused p e s started whole w = ground arith

write_too_long :
    (p : List ℕ) (s : XShellProxy)
    → 0 < s.wlength
    → s.wlength < length (s.wbuf ++ p)
    → (write_reply p s).0 ≡ err (errorf "xagent proxy: invalid write length" [])
unfolding write_reply
write_too_long p s started h = ground arith

write_chunks :
    (p : List ℕ) (ps : List (List ℕ)) (s : XShellProxy)
    → All (λ q. 0 < length q) ps
    → 0 < s.wlength
    → length s.wbuf + length (flatten (p ∷ ps)) ≡ s.wlength
    → s.conn.write_errors ≡ []
    → write_all (p ∷ ps) s ≡ (ok tt, sent_reply s (s.wbuf ++ flatten (p ∷ ps)))
unfolding flatten
write_chunks p [] s pos started total w =
    rw append-nil
      (rw (write_last p s started (omega (arith, length-append s.wbuf p, length-append p [])) w))
write_chunks p (q ∷ ps) s pos started total w =
    rw
      (write_more p s (
        omega (
          arith,
          pos.0,
          length-append s.wbuf p,
          length-append p (q ++ flatten ps),
          length-append q (flatten ps),
        )))
      (rw (← append_assoc) (
        write_chunks q ps (record s { wbuf = s.wbuf ++ p }) pos.1 started
          (omega (arith, total, length-append s.wbuf p, length-append p (q ++ flatten ps))) w))

-- With nothing buffered and a connection that takes it, a reply that the server writes as the four
-- bytes of its length (below 2^32) and then, in any pieces, that many bytes, none of the pieces empty,
-- goes out by a single write of the whole reply when its last byte has come; the proxy is then ready
-- for the next reply.
pub write_all_one_message :
    (ps : List (List ℕ)) (s : XShellProxy)
    → All (λ q. 0 < length q) ps
    → 0 < length (flatten ps)
    → length (flatten ps) < 2 ^ 32
    → s.wlength ≡ 0
    → s.wbuf ≡ []
    → s.conn.write_errors ≡ []
    → write_all (put_big_endian (length (flatten ps)) ∷ ps) s
      ≡ (ok tt, sent_reply s (put_big_endian (length (flatten ps)) ++ flatten ps))
unfolding flatten
write_all_one_message [] s pos some_bytes fits z e w = absurd (omega arith)
write_all_one_message (p ∷ ps) s pos some_bytes fits z e w =
    let head = put_big_endian (length (flatten (p ∷ ps))) in
    rw (write_head head s z (length-put_big_endian _)) (
      rw e (
        write_chunks p ps (record s { wlength = big_endian head + 4; wbuf = head }) pos.1
          (omega arith)
          (omega (
            arith,
            length-put_big_endian (length (flatten (p ∷ ps))),
            big_endian-put_self (length (flatten (p ∷ ps))) fits,
          ))
          w))

-- When the connection refuses a complete reply, and takes what comes later, the proxy takes the length
-- of the next reply but never its body, of whatever length n > 0: the bytes of the refused reply are
-- still in its buffer.
pub write_reply_after_refusal :
    (p body : List ℕ) (e : Error) (s : XShellProxy)
    → 0 < s.wlength
    → length (s.wbuf ++ p) ≡ s.wlength
    → s.conn.write_errors ≡ some e ∷ []
    → 0 < length body
    → length body < 2 ^ 32
    → let refused = write_reply p s in
      let next = write_reply (put_big_endian (length body)) refused.1 in
      (refused.0 ≡ err e)
      × (next.0 ≡ ok 4)
      × ((write_reply body next.1).0 ≡ err (errorf "xagent proxy: invalid write length" []))
write_reply_after_refusal p body e s started whole w some_bytes fits =
    rw (write_refused p e s started whole w) (
      let head = put_big_endian (length body) in
      let s' = record s {
        conn = record (s.conn) { write_errors = [] };
        wlength = 0;
        wbuf = s.wbuf ++ p;
      } in
      rw (write_head head s' refl (length-put_big_endian _)) (
        refl,
        ap ok (length-put_big_endian _),
        write_too_long body _ (omega arith) (
            omega (
              arith,
              big_endian-put_self (length body) fits,
              length-put_big_endian (length body),
              length-append (s.wbuf ++ p) head,
              length-append ((s.wbuf ++ p) ++ head) body,
            )),
      ))
