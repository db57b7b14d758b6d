-- ===== src/Utils/TcpOwner/Table.antt =====
-- The search reads back a table in the layout that Windows gives it.
use keybridge.Base.{
  ℕ, suc, ◌+◌, ◌*◌, ◌/◌, ◌%◌, ◌^◌, ◌<◌, ◌≡◌, refl, ap, ◌∙◌, List, [], ◌∷◌, ◌++◌, false, ltb, leb,
  ◌==◌, if◌then◌else◌, length, drop, arith, drop-add,
}
use keybridge.Base.Outcome.{errorf, Result, ok, err}
use keybridge.Base.Bytes.{u32, little_endian, put_little_endian, little_endian-put}
use keybridge.Utils.TcpOwner.{MibTcpRowOwnerPid, row_at, swap_port, find_row, search_table}

-- One TCP connection, its local port as a number of 16 bits.
pub record Endpoint : Type 0 where
  pub state : ℕ
  pub local_addr : ℕ
  pub port : ℕ
  pub remote_addr : ℕ
  pub remote_port : ℕ
  pub pid : ℕ

pub record Fits (e : Endpoint) : Type 0 where
  pub state_fits : e.state < 2 ^ 32
  pub local_addr_fits : e.local_addr < 2 ^ 32
  pub port_fits : e.port < 2 ^ 16
  pub remote_addr_fits : e.remote_addr < 2 ^ 32
  pub remote_port_fits : e.remote_port < 2 ^ 32
  pub pid_fits : e.pid < 2 ^ 32

-- The port's two bytes in network order, in the low half of the field.
abbrev pub network_order : ℕ → ℕ
network_order p = p % 256 * 256 + p / 256

abbrev pub row_of : Endpoint → MibTcpRowOwnerPid
row_of e = record {
  state = e.state;
  local_addr = e.local_addr;
  local_port = network_order e.port;
  remote_addr = e.remote_addr;
  remote_port = e.remote_port;
  owning_pid = e.pid;
}

-- The bytes of a row, and what follows them.
abbrev pub row_bytes : Endpoint → List ℕ → List ℕ
row_bytes e rest =
    put_little_endian e.state
    ++ (put_little_endian e.local_addr
        ++ (put_little_endian (network_order e.port)
            ++ (put_little_endian e.remote_addr
                ++ (put_little_endian e.remote_port ++ (put_little_endian e.pid ++ rest)))))

abbrev pub rows_bytes : List Endpoint → List ℕ → List ℕ
rows_bytes [] slack = slack
rows_bytes (e ∷ es) slack = row_bytes e (rows_bytes es slack)

abbrev pub AllFit : List Endpoint → Type 0
AllFit [] = Unit {0}
AllFit (e ∷ es) = Fits e × AllFit es

abbrev pub count : List Endpoint → ℕ
count [] = 0
count (e ∷ es) = suc (count es)

abbrev pub table_bytes : List Endpoint → List ℕ → List ℕ
table_bytes es slack = put_little_endian (count es) ++ rows_bytes es slack

-- The process of the first connection with the port.
abbrev pub owner_of : ℕ → List Endpoint → Result ℕ
owner_of port [] = err (errorf "no TCP table entry for local port %d" (port ∷ []))
owner_of port (e ∷ es) = if e.port == port then ok e.pid else owner_of port es

swap_port-network : (p : ℕ) → p < 2 ^ 16 → swap_port (network_order p) ≡ p
unfolding swap_port
swap_port-network p h = omega arith

length-row_bytes : (e : Endpoint) (rest : List ℕ) → length (row_bytes e rest) ≡ 24 + length rest
unfolding put_little_endian
length-row_bytes e rest = omega arith

drop-row_bytes : (e : Endpoint) (rest : List ℕ) → drop 24 (row_bytes e rest) ≡ rest
unfolding put_little_endian
drop-row_bytes e rest = refl

row_at-row_bytes : (e : Endpoint) (rest : List ℕ) → Fits e → row_at (row_bytes e rest) 0 ≡ row_of e
unfolding row_at put_little_endian little_endian
row_at-row_bytes e rest f = λ i. record {
  state = little_endian-put e.state [] f.state_fits i;
  local_addr = little_endian-put e.local_addr [] f.local_addr_fits i;
  local_port = little_endian-put (network_order e.port) [] (network_order_fits e f) i;
  remote_addr = little_endian-put e.remote_addr [] f.remote_addr_fits i;
  remote_port = little_endian-put e.remote_port [] f.remote_port_fits i;
  owning_pid = little_endian-put e.pid [] f.pid_fits i;
}
  where
    network_order_fits : (e : Endpoint) → Fits e → network_order e.port < 2 ^ 32
    network_order_fits e f = omega (arith, f.port_fits)

row_at-drop : (buf : List ℕ) (off : ℕ) → row_at buf off ≡ row_at (drop off buf) 0
unfolding row_at
row_at-drop buf off =
    rw
      (
        drop-add off 4 buf,
        drop-add off 8 buf,
        drop-add off 12 buf,
        drop-add off 16 buf,
        drop-add off 20 buf,
      )
      refl

length-rows_bytes :
    (es : List Endpoint) (slack : List ℕ)
    → length (rows_bytes es slack) ≡ 24 * count es + length slack
length-rows_bytes [] slack = omega arith
length-rows_bytes (e ∷ es) slack =
    omega (arith, length-row_bytes e (rows_bytes es slack), length-rows_bytes es slack)

-- The rows that are left stand from row `i` on.
find_row-rows_bytes :
    (es : List Endpoint) (slack buf : List ℕ) (port i : ℕ)
    → AllFit es
    → length buf < 2 ^ 32
    → length buf ≡ 4 + 24 * i + length (rows_bytes es slack)
    → drop (4 + 24 * i) buf ≡ rows_bytes es slack
    → find_row buf port i (count es) ≡ owner_of port es
unfolding find_row
find_row-rows_bytes [] slack buf port i f h l d = refl
find_row-rows_bytes (e ∷ es) slack buf port i (f, fs) h l d =
    let row_length = length-row_bytes e (rows_bytes es slack) in
    let off : u32 (4 + u32 (i * 24)) ≡ 4 + 24 * i = omega arith in
    let fits : ltb (u32 (length buf)) (u32 (4 + 24 * i + 24)) ≡ false = ground arith in
    let inside : leb (length buf) (4 + 24 * i) ≡ false = ground arith in
    let row : row_at buf (4 + 24 * i) ≡ row_of e =
      row_at-drop buf (4 + 24 * i) ∙ ap (λ bs. row_at bs 0) d ∙ row_at-row_bytes e _ f in
    let next : drop (4 + 24 * suc i) buf ≡ rows_bytes es slack =
      ap (λ n. drop n buf) (let n : 4 + 24 * suc i ≡ 4 + 24 * i + 24 = omega arith in n)
      ∙ drop-add (4 + 24 * i) 24 buf
      ∙ ap (drop 24) d
      ∙ drop-row_bytes e (rows_bytes es slack) in
    let rest =
      find_row-rows_bytes es slack buf port (suc i) fs h (omega (arith, row_length, l)) next in
    rw (off, fits, inside, row, swap_port-network e.port f.port_fits, rest) refl

header_length :
    (es : List Endpoint) (slack : List ℕ)
    → length (table_bytes es slack) ≡ 4 + length (rows_bytes es slack)
unfolding put_little_endian
header_length es slack = omega arith

rows_after_header :
    (es : List Endpoint) (slack : List ℕ)
    → drop (4 + 24 * 0) (table_bytes es slack) ≡ rows_bytes es slack
unfolding put_little_endian
rows_after_header es slack = refl

-- In a table in Windows' layout, of numbers that fit their fields, with any bytes after its rows and
-- shorter than 2^32 bytes, the search for a port returns the process of the first connection with that
-- local port, and an error if there is none.
pub search_table-table_bytes :
    (es : List Endpoint) (slack : List ℕ) (port : ℕ)
    → AllFit es
    → length (table_bytes es slack) < 2 ^ 32
    → search_table port (table_bytes es slack) ≡ owner_of port es
unfolding search_table
search_table-table_bytes es slack port f h =
    let l : length (table_bytes es slack) ≡ 4 + length (rows_bytes es slack) =
      header_length es slack in
    let header =
      little_endian-put (count es) (rows_bytes es slack)
        (omega (arith, length-rows_bytes es slack, l, h)) in
    let long : ltb (length (table_bytes es slack)) 4 ≡ false = ground arith in
    rw (long, header)
      (find_row-rows_bytes es slack (table_bytes es slack) port 0 f h (omega (arith, l))
        (rows_after_header es slack))
