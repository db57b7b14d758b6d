-- ===== src/App/XShell/Handshake.antt =====
-- `xshellHandshake`: only the holder of the cookie gets past it.
use keybridge.Base.{
  ℕ, ◌+◌, ◌-◌, ◌≤◌, ◌<◌, ◌≡◌, refl, ◌⊎◌, inl, inr, List, [], ◌∷◌, ◌++◌, arith, length, take, drop,
  length-append, length-take, take-append-drop, ap, ◌∙◌, bytes_equal→eq, bytes_equal_refl,
}
use keybridge.Base.Outcome.{ok}
use keybridge.Base.Bytes.{
  u32, big_endian, put_big_endian, big_endian-put_self, length-put_big_endian,
}
use keybridge.Base.Conn.{Conn, read_exact, read_exact-append, write_exact}
use keybridge.App.XShell.{SshWire, InitAgentMsg, xshell_handshake, check_request, check_cookie}

-- What a read of `n` bytes says of the connection when it succeeds.
read_exact-ok :
    (n : ℕ) (c d : Conn) (bs : List ℕ)
    → read_exact n c ≡ (ok bs, d)
    → (c.incoming ≡ bs ++ d.incoming) × (length bs ≡ n) × (d ≡ record c { incoming = d.incoming })
read_exact-ok n c d bs h = ground (arith, take-append-drop n c.incoming, length-take n c.incoming)

write_exact-ok :
    (bs : List ℕ) (c d : Conn)
    → write_exact bs c ≡ (ok tt, d)
    → (d.sent ≡ c.sent ++ bs ∷ []) × (d.incoming ≡ c.incoming)
write_exact-ok bs c d h = ground arith

-- What stands behind a handshake that succeeds.
pub record Admitted (wire : SshWire) (cookie : List ℕ) (c d : Conn) : Type 0 where
  pub head : List ℕ
  pub request : List ℕ
  pub remain : List ℕ
  pub msg : InitAgentMsg
  pub arrived : c.incoming ≡ head ++ (request ++ (remain ++ d.incoming))
  pub head_length : length head ≡ 4
  pub request_length : length request ≡ u32 (big_endian head + 4)
  pub not_large : length request ≤ 16777216
  pub code : (body : List ℕ) × (request ≡ 99 ∷ body)
  pub decoded : wire.unmarshal_init request ≡ inr msg
  pub presented : msg.cookie ++ remain ≡ cookie
  pub announced : msg.length ≡ length cookie
  pub answered :
      d.sent
      ≡ c.sent
        ++ (put_big_endian (u32 (length (wire.marshal_rep msg.flag))) ++ wire.marshal_rep msg.flag)
          ∷ []

check_cookie-ok :
    (wire : SshWire) (cookie : List ℕ) (msg : InitAgentMsg) (c d : Conn)
    → check_cookie wire cookie msg c ≡ (ok tt, d)
    → (remain : List ℕ) × (c.incoming ≡ remain ++ d.incoming)
      × (msg.cookie ++ remain ≡ cookie)
      × (msg.length ≡ length cookie)
      × (d.sent
          ≡ c.sent
            ++ (put_big_endian (u32 (length (wire.marshal_rep msg.flag)))
                ++ wire.marshal_rep msg.flag)
              ∷ [])
unfolding check_cookie
check_cookie-ok wire cookie msg c d h =
    let n = msg.length - length msg.cookie in
    (
      take n c.incoming,
      ground (arith, take-append-drop n c.incoming),
      ground (arith, bytes_equal→eq (msg.cookie ++ take n c.incoming) cookie),
      ground arith,
      ground arith,
    )

pub either_cases : {A B : Type 0} (x : A ⊎ B) → ((a : A) × (x ≡ inl a)) ⊎ ((b : B) × (x ≡ inr b))
either_cases (inl a) = inl (a, refl)
either_cases (inr b) = inr (b, refl)

check_request-ok :
    (wire : SshWire) (cookie req : List ℕ) (c d : Conn)
    → check_request wire cookie req c ≡ (ok tt, d)
    → (msg : InitAgentMsg) × (body : List ℕ) × (req ≡ 99 ∷ body)
      × (wire.unmarshal_init req ≡ inr msg)
      × (check_cookie wire cookie msg c ≡ (ok tt, d))
unfolding check_request
check_request-ok wire cookie [] c d h = cc
check_request-ok wire cookie (b ∷ bs) c d h = elim (either_cases (wire.unmarshal_init (b ∷ bs))) [
  | inl (e, refused) ↦ ground (arith, refused)
  | inr (msg, decoded) ↦ (msg, bs, ground (arith, decoded), decoded, ground (arith, decoded))
]

handshake-ok :
    (wire : SshWire) (cookie : List ℕ) (c d : Conn)
    → xshell_handshake wire cookie c ≡ (ok tt, d)
    → (head req : List ℕ) × (c' : Conn) × (c.incoming ≡ head ++ (req ++ c'.incoming))
      × (c'.sent ≡ c.sent)
      × (length head ≡ 4)
      × (length req ≡ u32 (big_endian head + 4))
      × (length req ≤ 16777216)
      × (check_request wire cookie req c' ≡ (ok tt, d))
unfolding xshell_handshake
handshake-ok wire cookie c d h =
    let head = take 4 c.incoming in
    let after_head = drop 4 c.incoming in
    let l = u32 (big_endian head + 4) in
    (
      head,
      take l after_head,
      record c { incoming = drop l after_head },
      ground (arith, take-append-drop 4 c.incoming, take-append-drop l after_head),
      refl,
      ground (arith, length-take 4 c.incoming),
      ground (arith, length-take l after_head),
      ground (arith, length-take l after_head),
      ground (arith),
    )

-- A handshake succeeds only if the client sent a length, a request of that length plus 4 bytes (in 32
-- bits), at most 16 MiB, with the opcode 99, that decodes, and then the rest of the cookie: what the
-- request holds of it and what came behind it make up the agent's cookie. The reply has then been
-- sent, with its length in front, as one message, and what the client sent next is still unread.
pub xshell_handshake-Admitted :
    (wire : SshWire) (cookie : List ℕ) (c d : Conn)
    → xshell_handshake wire cookie c ≡ (ok tt, d)
    → Admitted wire cookie c d
xshell_handshake-Admitted wire cookie c d h =
    let (head, req, c', arrived, unsent, four, l, small, h') = handshake-ok wire cookie c d h in
    let (msg, body, code, decoded, h'') = check_request-ok wire cookie req c' d h' in
    let (remain, left, presented, announced, answered) = check_cookie-ok wire cookie msg c' d h'' in
    record {
      head = head;
      request = req;
      remain = remain;
      msg = msg;
      arrived = arrived ∙ ap (λ (x : List ℕ). head ++ (req ++ x)) left;
      head_length = four;
      request_length = l;
      not_large = small;
      code = (body, code);
      decoded = decoded;
      presented = presented;
      announced = announced;
      answered = cc;
    }

-- A client that sends a request of at most 16 MiB that decodes, with the agent's cookie, any part of
-- it in the message and the rest behind it, gets past the handshake, if no write fails; the bytes
-- after the cookie stay unread.
pub xshell_handshake_accepts :
    (wire : SshWire) (cookie body remain rest : List ℕ) (msg : InitAgentMsg) (c : Conn)
    → 3 ≤ length body
    → length body < 16777216
    → c.incoming ≡ put_big_endian (length body - 3) ++ ((99 ∷ body) ++ (remain ++ rest))
    → wire.unmarshal_init (99 ∷ body) ≡ inr msg
    → msg.length ≡ length cookie
    → msg.cookie ++ remain ≡ cookie
    → c.write_errors ≡ []
    → let result = xshell_handshake wire cookie c in (result.0 ≡ ok tt) × (result.1.incoming ≡ rest)
unfolding xshell_handshake check_request
xshell_handshake_accepts wire cookie body remain rest msg c long small arrived decoded announced
      presented w =
    let head = put_big_endian (length body - 3) in
    let req = 99 ∷ body in
    let l = length body - 3 in
    let l_eq : u32 (big_endian head + 4) ≡ length req =
      omega (arith, big_endian-put_self l (omega arith)) in
    ground (
      arith,
      l_eq,
      decoded,
      read_exact-append 4 head (req ++ (remain ++ rest)) c (length-put_big_endian l) arrived,
      read_exact-append (length req) req (remain ++ rest)
          (record c { incoming = req ++ (remain ++ rest) }) refl refl,
      read_exact-append (length remain) remain rest (record c { incoming = remain ++ rest }) refl
          refl,
      length-append msg.cookie remain,
      ap length presented,
      bytes_equal_refl cookie,
    )
