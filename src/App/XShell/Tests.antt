-- ===== src/App/XShell/Tests.antt =====
-- Runs and instances of the theorems about app/xshell.go.
use keybridge.Base.{
  ℕ, ◌≡◌, ◌↔◌, ◌<◌, refl, List, [], ◌∷◌, ◌++◌, false, true, length, drop, leb, ◌⊎◌, inl, inr,
  if◌then◌else◌, arith, some, All, flatten,
}
use keybridge.Base.Outcome.{Error, eof, errorf, ok, panic}
use keybridge.Base.Bytes.{big_endian, put_big_endian}
use keybridge.Base.Conn.{Conn}
use keybridge.App.XShell.{
  SshWire, InitAgentMsg, XShellProxy, xshell_handshake, check_request, read, write_reply,
  close_proxy,
}
use keybridge.App.XShell.Handshake.{Admitted, xshell_handshake-Admitted, xshell_handshake_accepts}
use keybridge.App.XShell.Overflow.{xshell_handshake-panic_iff}
use keybridge.App.XShell.Frames.{drain, drain_requests}
use keybridge.App.XShell.Replies.{write_all, sent_reply, write_all_one_message}

-- A decoder with the layout of `initAgentMsg`: opcode, flag, length, rest.
abbrev decode_init : List ℕ → Error ⊎ InitAgentMsg
decode_init bs =
    if leb 9 (length bs)
    then inr (record {
      flag = big_endian (drop 1 bs);
      length = big_endian (drop 5 bs);
      cookie = drop 9 bs;
    })
    else inl (errorf "ssh: short read" [])

abbrev wire : SshWire
wire = record {
  unmarshal_init = decode_init;
  marshal_rep = λ flag. 99 ∷ put_big_endian flag;
  is_sign_request = λ bs. leb 5 (length bs);
}

abbrev dial : List ℕ → Conn
dial bs = record { incoming = bs; end_error = eof; sent = []; write_errors = []; closed = false }

-- The cookie "ab" comes with its first byte in the message and its second after it.
abbrev greeting : List ℕ
greeting = 0 ∷ 0 ∷ 0 ∷ 6 ∷ 99 ∷ 0 ∷ 0 ∷ 0 ∷ 7 ∷ 0 ∷ 0 ∷ 0 ∷ 2 ∷ 97 ∷ 98 ∷ []

handshake_run : (xshell_handshake wire (97 ∷ 98 ∷ []) (dial greeting)).0 ≡ ok tt
unfolding xshell_handshake check_request big_endian put_big_endian
handshake_run = refl

wrapped_run : (xshell_handshake wire (97 ∷ 98 ∷ []) (dial (255 ∷ 255 ∷ 255 ∷ 252 ∷ []))).0 ≡ panic
unfolding xshell_handshake check_request big_endian put_big_endian
wrapped_run = refl

abbrev proxy : List ℕ → XShellProxy
proxy bs = record { conn = dial bs; buf = []; wlength = 0; wbuf = [] }

read_run : (read wire 5 (proxy (0 ∷ 0 ∷ 0 ∷ 2 ∷ 13 ∷ 5 ∷ []))).0 ≡ ok (0 ∷ 0 ∷ 0 ∷ 6 ∷ 13 ∷ [])
unfolding read big_endian put_big_endian
read_run = refl

write_run : (write_reply (0 ∷ 0 ∷ 0 ∷ 1 ∷ []) (proxy [])).1.wlength ≡ 5
unfolding write_reply big_endian
write_run = refl

-- Instances of the theorems.
handshake-Admitted :
    Admitted wire
      (97 ∷ 98 ∷ [])
      (dial greeting)
      (xshell_handshake wire (97 ∷ 98 ∷ []) (dial greeting)).1
unfolding xshell_handshake check_request big_endian put_big_endian
handshake-Admitted =
    xshell_handshake-Admitted wire (97 ∷ 98 ∷ []) (dial greeting)
      (xshell_handshake wire (97 ∷ 98 ∷ []) (dial greeting)).1 refl

handshake_panics :
    ((xshell_handshake wire (97 ∷ 98 ∷ []) (dial (255 ∷ 255 ∷ 255 ∷ 252 ∷ []))).0 ≡ panic)
    ↔ ((rest : List ℕ) × (255 ∷ 255 ∷ 255 ∷ 252 ∷ [] ≡ 255 ∷ 255 ∷ 255 ∷ 252 ∷ rest))
handshake_panics =
    xshell_handshake-panic_iff wire (97 ∷ 98 ∷ []) (dial (255 ∷ 255 ∷ 255 ∷ 252 ∷ []))
      (omega arith, (omega arith, (omega arith, (omega arith, tt))))

handshake_accepts :
    let result = xshell_handshake wire (97 ∷ 98 ∷ []) (dial greeting) in
    (result.0 ≡ ok tt) × (result.1.incoming ≡ [])
unfolding put_big_endian big_endian
handshake_accepts =
    xshell_handshake_accepts wire (97 ∷ 98 ∷ []) (0 ∷ 0 ∷ 0 ∷ 7 ∷ 0 ∷ 0 ∷ 0 ∷ 2 ∷ 97 ∷ []) (98 ∷ [])
      [] (record { flag = 7; length = 2; cookie = 97 ∷ [] }) (dial greeting) (omega arith)
      (omega arith) refl refl refl refl refl

abbrev two_bodies : List (List ℕ)
two_bodies = (13 ∷ 5 ∷ []) ∷ (11 ∷ []) ∷ []

abbrev buffers : List ℕ
buffers = 3 ∷ 8 ∷ 1 ∷ 9 ∷ 2 ∷ 5 ∷ 3 ∷ 3 ∷ 3 ∷ 3 ∷ 3 ∷ 3 ∷ 3 ∷ 3 ∷ 3 ∷ 3 ∷ []

requests_drained :
    drain wire buffers (proxy (0 ∷ 0 ∷ 0 ∷ 2 ∷ 13 ∷ 5 ∷ 0 ∷ 0 ∷ 0 ∷ 1 ∷ 11 ∷ []))
    ≡ (0 ∷ 0 ∷ 0 ∷ 6 ∷ 13 ∷ 5 ∷ 0 ∷ 0 ∷ 0 ∷ 0 ∷ 0 ∷ 0 ∷ 0 ∷ 1 ∷ 11 ∷ [], some eof)
unfolding put_big_endian
requests_drained =
    drain_requests wire buffers two_bodies
      (proxy (0 ∷ 0 ∷ 0 ∷ 2 ∷ 13 ∷ 5 ∷ 0 ∷ 0 ∷ 0 ∷ 1 ∷ 11 ∷ [])) refl refl
      ((omega arith, omega arith), ((omega arith, omega arith), tt)) buffers_positive (omega arith)
  where
    buffers_positive : All (λ n. 0 < n) buffers
    buffers_positive = ground arith

reply_in_pieces :
    write_all (put_big_endian 3 ∷ (1 ∷ []) ∷ (2 ∷ 3 ∷ []) ∷ []) (proxy [])
    ≡ (ok tt, sent_reply (proxy []) (put_big_endian 3 ++ (1 ∷ 2 ∷ 3 ∷ [])))
unfolding flatten
reply_in_pieces =
    write_all_one_message ((1 ∷ []) ∷ (2 ∷ 3 ∷ []) ∷ []) (proxy []) (omega arith, (omega arith, tt))
      (omega arith) (omega arith) refl refl refl

close_run : (close_proxy (proxy [])).conn.closed ≡ true
unfolding close_proxy
close_run = refl
