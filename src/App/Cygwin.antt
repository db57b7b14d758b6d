-- ===== src/App/Cygwin.antt =====
-- app/cygwin.go and UUIDToString of utils/misc.go: the handshake of a Cygwin socket, and the text of the
-- secret that it checks. The process identifier is a parameter.
pub mod Setup
pub mod Secret
pub mod Text
mod Tests
use keybridge.Base.{
  ℕ, zero, suc, ◌+◌, ◌/◌, ◌%◌, List, [], ◌∷◌, ◌++◌, Bool, true, false, not, Option, ltb, ◌==◌,
  if◌then◌else◌, take, drop, bytes_equal,
}
use keybridge.Base.Outcome.{Error, errorf, Result, ok, err, panic, Exec, ◌>>=◌, raise}
use keybridge.Base.Bytes.{u32, put_little_endian}
use keybridge.Base.Conn.{Conn, read_exact, write, write_exact, close}

-- A digit of `hex.Encode`.
pub hex_digit : ℕ → ℕ
hex_digit n = if ltb n 10 then 48 + n else 87 + n

pub hex_byte : ℕ → List ℕ
unfolding hex_digit
hex_byte b = hex_digit (b / 16) ∷ hex_digit (b % 16) ∷ []

-- One group: four bytes, the last one first.
pub hex_group : List ℕ → List ℕ
unfolding hex_byte
hex_group (a ∷ b ∷ c ∷ d ∷ _) = hex_byte d ++ (hex_byte c ++ (hex_byte b ++ hex_byte a))
hex_group _ = []

-- The loop of `UUIDToString`: so many groups are left, and a dash (45) stands after each but the last.
pub hex_groups : ℕ → List ℕ → List ℕ
hex_groups zero uuid = []
hex_groups (suc n) uuid =
    hex_group (take 4 uuid) ++ ((if n == 0 then [] else 45 ∷ []) ++ hex_groups n (drop 4 uuid))

-- `UUIDToString`
pub uuid_to_string : List ℕ → List ℕ
uuid_to_string uuid = hex_groups 4 uuid

-- The write of the secret, whose error is not looked at.
pub write_uuid : List ℕ → Exec Conn (Option Error)
write_uuid uuid c = let (e, c') = write uuid c in (ok e, c')

-- The reply: the process identifier in the first and the last four bytes.
pub pids_uids : ℕ → List ℕ → List ℕ
pids_uids pid sent =
    put_little_endian (u32 pid) ++ (take 4 (drop 4 sent) ++ put_little_endian (u32 pid))

-- With the secret in hand, the peer is answered.
pub answer_peer : List ℕ → ℕ → Exec Conn (Unit {0})
unfolding write_uuid pids_uids
answer_peer uuid pid = do
  e ← write_uuid uuid
  sent ← read_exact 12
  write_exact (pids_uids pid sent)

pub check_uuid : List ℕ → ℕ → List ℕ → Exec Conn (Unit {0})
check_uuid uuid pid cuuid =
    if not (bytes_equal uuid cuuid) then raise (errorf "invalid uuid" []) else answer_peer uuid pid

-- `cygwinHandshake`
pub cygwin_handshake : List ℕ → ℕ → Exec Conn (Unit {0})
unfolding check_uuid
cygwin_handshake uuid pid = read_exact 16 >>= check_uuid uuid pid

-- What the loop of `(*Cygwin).Run` does with an accepted connection: whether it goes to the handler.
pub after_handshake : Result (Unit {0}) → Conn → Bool × Conn
after_handshake (ok u) c = (true, c)
after_handshake (err e) c = (false, close c)
after_handshake panic c = (false, c)

pub admit_conn : List ℕ → ℕ → Conn → Bool × Conn
unfolding cygwin_handshake after_handshake
admit_conn uuid pid c = let (r, c') = cygwin_handshake uuid pid c in after_handshake r c'
