-- ===== src/Utils/TcpOwner/Tests.antt =====
-- Runs and instances of the theorems about utils/tcpowner.go.
use keybridge.Base.{
  ℕ, ◌≡◌, ◌<◌, ◌^◌, if◌then◌else◌, refl, List, [], ◌∷◌, true, some, ◌==◌, arith, length,
}
use keybridge.Base.Outcome.{ok}
use keybridge.Base.Bytes.{put_little_endian, little_endian}
use keybridge.Utils.TcpOwner.{
  Windows, Handles, same_user_tcp_conn, tcp_conn_owner_pid, find_row, row_at, swap_port,
  search_table,
}
use keybridge.Utils.TcpOwner.Table.{Endpoint, AllFit, table_bytes, search_table-table_bytes}

abbrev endpoint : ℕ → ℕ → Endpoint
endpoint port pid = record {
  state = 5;
  local_addr = 16777343;
  port = port;
  remote_addr = 16777343;
  remote_port = 80;
  pid = pid;
}

abbrev connections : List Endpoint
connections = endpoint 80 4 ∷ endpoint 50000 1234 ∷ []

-- The first attempt is told that its buffer is too small.
abbrev windows : Windows
windows = record {
  first_size = 28;
  table = λ attempt size. record {
    status = if attempt == 0 then 122 else 0;
    buffer = table_bytes connections [];
    size = 52;
  };
  open_process = λ pid. ok tt;
  open_process_token = ok tt;
  token_user = ok 9;
  user_sid = ok 9;
  equal_sid = λ a b. a == b;
}

abbrev nothing_open : Handles
nothing_open = record { processes = 0; tokens = 0 }

owner_run : tcp_conn_owner_pid windows 50000 ≡ ok 1234
unfolding tcp_conn_owner_pid find_row row_at swap_port put_little_endian little_endian
owner_run = refl

same_user_run : (same_user_tcp_conn windows (some 50000) nothing_open).0 ≡ ok true
unfolding same_user_tcp_conn find_row row_at swap_port put_little_endian little_endian
same_user_run = refl

connections-AllFit : AllFit connections
connections-AllFit = (
  record {
    state_fits = omega arith;
    local_addr_fits = omega arith;
    port_fits = omega arith;
    remote_addr_fits = omega arith;
    remote_port_fits = omega arith;
    pid_fits = omega arith;
  },
  (
    record {
      state_fits = omega arith;
      local_addr_fits = omega arith;
      port_fits = omega arith;
      remote_addr_fits = omega arith;
      remote_port_fits = omega arith;
      pid_fits = omega arith;
    },
    tt,
  ),
)

short_table : length (table_bytes connections (0 ∷ [])) < 2 ^ 32
unfolding put_little_endian
short_table = omega arith

owner_found : search_table 50000 (table_bytes connections (0 ∷ [])) ≡ ok 1234
owner_found = search_table-table_bytes connections (0 ∷ []) 50000 connections-AllFit short_table
