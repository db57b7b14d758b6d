-- ===== src/Utils/Mmap.antt =====
-- utils/mmap.go: a request in shared memory as a connection. The mutex makes each method one step.
pub mod Session
mod Tests
use keybridge.Base.{
  ℕ, ◌+◌, List, [], ◌∷◌, ◌++◌, Bool, true, false, leb, ltb, if◌then◌else◌, length, take, drop,
}
use keybridge.Base.Outcome.{Error, eof, unexpected_eof, closed_pipe, ok, err, Exec}

-- `response`: data, or an error.
pub data Response : Type 0 where
  replied : List ℕ → Response
  failed : Error → Response

-- `memoryMapConn`; `responses` is what was sent on the request's channel.
pub record MemoryMapConn : Type 0 where
  pub request : List ℕ
  pub offset : ℕ
  pub w : List ℕ
  pub closed : Bool
  pub responses : List Response

-- `&memoryMapConn{req: req}`
unfoldable pub new_conn : List ℕ → MemoryMapConn
new_conn request = record { request = request; offset = 0; w = []; closed = false; responses = [] }

-- `Read(p)` with `len(p) = n`
pub read : ℕ → Exec MemoryMapConn (List ℕ)
read n m =
    if m.closed
    then (err closed_pipe, m)
    else if leb (length m.request) m.offset
    then (err eof, m)
    else (let bytes = take n (drop m.offset m.request) in
        (ok bytes, record m { offset = m.offset + length bytes }))

-- `Write(p)`
unfoldable pub write : List ℕ → Exec MemoryMapConn ℕ
write p m = if m.closed then (err closed_pipe, m) else (ok (length p), record m { w = m.w ++ p })

-- `Close()`
unfoldable pub close : Exec MemoryMapConn (Unit {0})
close m = if m.closed then (err closed_pipe, m) else (
  ok tt,
  record m {
    closed = true;
    responses =
        m.responses ++ (if ltb 0 (length m.w) then replied m.w else failed unexpected_eof) ∷ [];
  },
)
