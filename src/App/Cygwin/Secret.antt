-- ===== src/App/Cygwin/Secret.antt =====
-- Who gets past the handshake, and what the secret's text says.
use keybridge.Base.{
  ℕ, ◌≡◌, ◌≢◌, refl, ap, sym, ◌∙◌, List, [], ◌∷◌, ◌++◌, true, false, Option, none, leb, take,
  length, bytes_equal, bytes_equal→eq, bytes_equal_refl, Bool-cases, inl, inr,
}
use keybridge.Base.Outcome.{Error, Result, ok, continue, ◌>>=◌}
use keybridge.Base.Conn.{Conn, read_exact, write, write_exact, read_exact-append}
use keybridge.App.Cygwin.{
  check_uuid, answer_peer, admit_conn, after_handshake, write_uuid, pids_uids,
}

differs : (uuid cuuid : List ℕ) → cuuid ≢ uuid → bytes_equal uuid cuuid ≡ false
differs uuid cuuid n = elim (Bool-cases (bytes_equal uuid cuuid)) [
  | inl e ↦ absurd (n (sym (bytes_equal→eq uuid cuuid e)))
  | inr e ↦ e
]

-- A peer that does not open with the secret is given nothing: no byte is sent, the handshake does not
-- succeed, and the connection is closed without being handled.
pub admit_conn_refuses :
    (uuid : List ℕ) (pid : ℕ) (c : Conn)
    → take 16 c.incoming ≢ uuid
    → let (handled, c') = admit_conn uuid pid c in
      (handled ≡ false) × (c'.sent ≡ c.sent) × (c'.closed ≡ true)
unfolding admit_conn
admit_conn_refuses uuid pid c n = elim (Bool-cases (leb 16 (length c.incoming))) [
  | inl e ↦ rw (e, differs uuid (take 16 c.incoming) n) (refl, refl, refl)
  | inr e ↦ rw e (refl, refl, refl)
]

abbrev pub served : List ℕ → ℕ → List ℕ → List ℕ → Conn → Conn
served uuid pid ids rest c = record c {
  incoming = rest;
  sent = c.sent ++ uuid ∷ [] ++ pids_uids pid ids ∷ [];
}

write_empty :
    (bs : List ℕ) (c : Conn)
    → c.write_errors ≡ []
    → write bs c ≡ (none, record c { sent = c.sent ++ bs ∷ [] })
write_empty bs c w = rw w refl

write_uuid_empty :
    (bs : List ℕ) (c : Conn)
    → c.write_errors ≡ []
    → write_uuid bs c ≡ (ok none, record c { sent = c.sent ++ bs ∷ [] })
unfolding write_uuid
write_uuid_empty bs c w = ap (λ (r : Option Error × Conn). (ok r.0, r.1)) (write_empty bs c w)

write_exact_empty :
    (bs : List ℕ) (c : Conn)
    → c.write_errors ≡ []
    → write_exact bs c ≡ (ok tt, record c { sent = c.sent ++ bs ∷ [] })
write_exact_empty bs c w = rw w refl

answer_peer-served :
    (uuid : List ℕ) (pid : ℕ) (ids rest : List ℕ) (c : Conn)
    → length ids ≡ 12
    → c.incoming ≡ ids ++ rest
    → c.write_errors ≡ []
    → answer_peer uuid pid c ≡ (ok tt, served uuid pid ids rest c)
unfolding answer_peer
answer_peer-served uuid pid ids rest c li e w =
    let c₁ = record c { sent = c.sent ++ uuid ∷ [] } in
    ap
      (λ (r : Result (Option Error) × Conn).
        continue r.0 (λ x. read_exact 12 >>= λ sent. write_exact (pids_uids pid sent)) r.1)
      (write_uuid_empty uuid c w)
    ∙ ap
        (λ (r : Result (List ℕ) × Conn).
          continue r.0 (λ sent. write_exact (pids_uids pid sent)) r.1)
        (read_exact-append 12 ids rest c₁ li e)
    ∙ write_exact_empty (pids_uids pid ids) (record c₁ { incoming = rest }) w

check_uuid-same :
    (uuid : List ℕ) (pid : ℕ) (c : Conn) → check_uuid uuid pid uuid c ≡ answer_peer uuid pid c
unfolding check_uuid
check_uuid-same uuid pid c = rw (bytes_equal_refl uuid) refl

-- A peer that sends the secret and twelve more bytes is handled, if no write fails: it is answered by the
-- secret and by its own bytes with the process identifier put into the first and the last four, and what
-- it sent after them is left for the handler.
pub admit_conn_accepts :
    (uuid : List ℕ) (pid : ℕ) (ids rest : List ℕ) (c : Conn)
    → length uuid ≡ 16
    → length ids ≡ 12
    → c.incoming ≡ uuid ++ (ids ++ rest)
    → c.write_errors ≡ []
    → admit_conn uuid pid c ≡ (true, served uuid pid ids rest c)
unfolding admit_conn
admit_conn_accepts uuid pid ids rest c lu li e w =
    ap
      (λ (r : Result (List ℕ) × Conn).
        let (x, c') = continue r.0 (check_uuid uuid pid) r.1 in after_handshake x c')
      (read_exact-append 16 uuid (ids ++ rest) c lu e)
    ∙ ap (λ (r : Result (Unit {0}) × Conn). after_handshake r.0 r.1)
        (check_uuid-same uuid pid (record c { incoming = ids ++ rest })
          ∙ answer_peer-served uuid pid ids rest (record c { incoming = ids ++ rest }) li refl w)
