-- ===== src/Utils/TcpOwner.antt =====
-- utils/tcpowner.go: which process owns the other end of a loopback connection, and whether it runs as
-- the same user. Windows' table of TCP connections, processes and tokens is a parameter.
pub mod Table
pub mod Users
mod Tests
use keybridge.Base.{
  ℕ, zero, suc, ◌+◌, ◌-◌, ◌*◌, ◌/◌, ◌%◌, ◌^◌, List, [], ◌∷◌, Bool, Option, none, some, ltb, leb,
  ◌==◌, if◌then◌else◌, length, drop,
}
use keybridge.Base.Outcome.{errorf, Result, ok, err, panic, Exec, ◌>>=◌, raise, lift, pure}
use keybridge.Base.Bytes.{u32, little_endian}

abbrev err_insufficient_buffer : ℕ
err_insufficient_buffer = 122

abbrev row_size : ℕ
row_size = 24

-- `mibTcpRowOwnerPid`
pub record MibTcpRowOwnerPid : Type 0 where
  pub state : ℕ
  pub local_addr : ℕ
  pub local_port : ℕ
  pub remote_addr : ℕ
  pub remote_port : ℕ
  pub owning_pid : ℕ

-- The row that stands at an offset of the buffer, in the processor's little-endian order.
pub row_at : List ℕ → ℕ → MibTcpRowOwnerPid
row_at buf off = record {
  state = little_endian (drop off buf);
  local_addr = little_endian (drop (off + 4) buf);
  local_port = little_endian (drop (off + 8) buf);
  remote_addr = little_endian (drop (off + 12) buf);
  remote_port = little_endian (drop (off + 16) buf);
  owning_pid = little_endian (drop (off + 20) buf);
}

-- `swapPort`; the two masked halves share no bit, so their union is a sum.
pub swap_port : ℕ → ℕ
swap_port p = p / 256 % 256 + u32 (p * 256) / 256 % 256 * 256

-- One call of GetExtendedTcpTable: its status, the buffer's bytes and the size after it.
pub record TableAnswer : Type 0 where
  pub status : ℕ
  pub buffer : List ℕ
  pub size : ℕ

-- Windows, and the conversion of its tables: the size asked for first, the answer to each attempt by the
-- size of its buffer, and what the calls about the process and its token return.
pub record Windows : Type 0 where
  pub first_size : ℕ
  pub table : ℕ → ℕ → TableAnswer
  pub open_process : ℕ → Result (Unit {0})
  pub open_process_token : Result (Unit {0})
  pub token_user : Result ℕ
  pub user_sid : Result ℕ
  pub equal_sid : ℕ → ℕ → Bool

-- The loop over the attempts, of which so many are left. The address of a buffer without bytes cannot
-- be taken.
pub fetch_table : Windows → ℕ → ℕ → ℕ → Result (List ℕ)
fetch_table w attempt size zero =
    err (errorf "GetExtendedTcpTable: table kept growing, giving up" [])
fetch_table w attempt size (suc left) =
    let a = w.table attempt size in
    let rest = fetch_table w (suc attempt) a.size left in
    if size == 0
    then panic
    else if a.status == 0
    then ok a.buffer
    else if a.status == err_insufficient_buffer
    then rest
    else err (errorf "GetExtendedTcpTable failed: %d" (a.status ∷ []))

-- The loop over the rows, from row `i` on.
pub find_row : List ℕ → ℕ → ℕ → ℕ → Result ℕ
find_row buf port i zero = err (errorf "no TCP table entry for local port %d" (port ∷ []))
find_row buf port i (suc left) =
    let rest = find_row buf port (suc i) left in
    let off = u32 (4 + u32 (i * row_size)) in
    if ltb (u32 (length buf)) (u32 (off + row_size))
    then err (errorf "no TCP table entry for local port %d" (port ∷ []))
    else if leb (length buf) off
    then panic
    else (let row = row_at buf off in
        if swap_port row.local_port == port then ok row.owning_pid else rest)

pub search_table : ℕ → List ℕ → Result ℕ
unfolding find_row
search_table port buf =
    if ltb (length buf) 4
    then err (errorf "GetExtendedTcpTable: short buffer" [])
    else find_row buf port 0 (little_endian buf)

pub search_fetched : ℕ → Result (List ℕ) → Result ℕ
unfolding search_table
search_fetched port (ok buf) = search_table port buf
search_fetched port (err e) = err e
search_fetched port panic = panic

-- `tcpConnOwnerPID`
pub tcp_conn_owner_pid : Windows → ℕ → Result ℕ
unfolding fetch_table search_fetched
tcp_conn_owner_pid w port =
    if w.first_size == 0
    then err (errorf "GetExtendedTcpTable: could not determine buffer size" [])
    else search_fetched port (fetch_table w 0 w.first_size 3)

-- The handles of processes and tokens that are open.
pub record Handles : Type 0 where
  pub processes : ℕ
  pub tokens : ℕ

abbrev deferred {ℓ} : {S A : Type ℓ} → (S → S) → Exec S A → Exec S A
deferred close m s = let (r, s') = m s in (r, close s')

pub close_token : Handles → Handles
close_token h = record h { tokens = h.tokens - 1 }

pub close_process : Handles → Handles
close_process h = record h { processes = h.processes - 1 }

-- The users of an open token and of this process are compared.
pub equal_users : Windows → Exec Handles Bool
equal_users w =
    lift w.token_user >>= λ user. lift w.user_sid >>= λ ours. pure (w.equal_sid user ours)

-- From an open token on, with its deferred `Close`.
pub with_token : Windows → Unit {0} → Exec Handles Bool
unfolding close_token equal_users
with_token w opened h = deferred close_token (equal_users w) (record h { tokens = suc h.tokens })

pub open_token : Windows → Exec Handles Bool
unfolding with_token
open_token w = lift w.open_process_token >>= with_token w

-- From an open process on, with its deferred `CloseHandle`.
pub with_process : Windows → Unit {0} → Exec Handles Bool
unfolding close_process open_token
with_process w opened h =
    deferred close_process (open_token w) (record h { processes = suc h.processes })

pub open_owner : Windows → ℕ → Exec Handles Bool
unfolding with_process
open_owner w pid = lift (w.open_process pid) >>= with_process w

-- `SameUserTCPConn`, by the port of the remote address if that is one of TCP.
pub same_user_tcp_conn : Windows → Option ℕ → Exec Handles Bool
unfolding tcp_conn_owner_pid open_owner
same_user_tcp_conn w none = raise (errorf "SameUserTCPConn: not a TCP connection" [])
same_user_tcp_conn w (some port) = lift (tcp_conn_owner_pid w (port % 2 ^ 16)) >>= open_owner w
