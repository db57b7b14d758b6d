-- ===== src/App/Cygwin/Tests.antt =====
-- Runs and instances of the theorems about app/cygwin.go.
use keybridge.Base.{ℕ, ◌≡◌, ◌≢◌, refl, List, [], ◌∷◌, ◌++◌, true, false, take, arith}
use keybridge.Base.Outcome.{eof}
use keybridge.Base.Conn.{Conn}
use keybridge.App.Cygwin.{
  admit_conn, answer_peer, uuid_to_string, hex_groups, hex_group, hex_byte, hex_digit,
}
use keybridge.App.Cygwin.Secret.{admit_conn_refuses}

abbrev secret : List ℕ
secret = 1 ∷ 2 ∷ 3 ∷ 4 ∷ 5 ∷ 6 ∷ 7 ∷ 8 ∷ 9 ∷ 10 ∷ 11 ∷ 12 ∷ 13 ∷ 14 ∷ 15 ∷ 255 ∷ []

abbrev ids : List ℕ
ids = 1 ∷ 1 ∷ 1 ∷ 1 ∷ 2 ∷ 2 ∷ 2 ∷ 2 ∷ 3 ∷ 3 ∷ 3 ∷ 3 ∷ []

abbrev peer : List ℕ → Conn
peer bs = record { incoming = bs; end_error = eof; sent = []; write_errors = []; closed = false }

text_run : take 9 (uuid_to_string secret) ≡ 48 ∷ 52 ∷ 48 ∷ 51 ∷ 48 ∷ 50 ∷ 48 ∷ 49 ∷ 45 ∷ []
unfolding uuid_to_string hex_groups hex_group hex_byte hex_digit
text_run = refl

handshake_run : (admit_conn secret 7 (peer (secret ++ ids))).0 ≡ true
unfolding admit_conn answer_peer
handshake_run = refl

stranger_refused :
    let (handled, c') = admit_conn secret 7 (peer (9 ∷ [])) in
    (handled ≡ false) × (c'.sent ≡ []) × (c'.closed ≡ true)
stranger_refused = admit_conn_refuses secret 7 (peer (9 ∷ [])) differ
  where
    differ : 9 ∷ [] ≢ secret
    differ e = ground arith
