-- ===== src/Base/Conn.antt =====
-- A `net.Conn` as the code sees it, and `io.ReadFull`.
use Prim.Native.Nat.{ℕ}
use mathlib.Core.Path.{◌≡◌, ap}
use native.Mathlib.Omega.{arith}
use mathlib.Core.Bool.{Bool, true}
use mathlib.Core.Option.{Option, none, some}
use mathlib.Core.List.{List, [], ◌∷◌, ◌++◌}
use keybridge.Base.Tests.{leb, le→leb, if◌then◌else◌}
use keybridge.Base.Lists.{length, take, drop, length-append, take-append, drop-append}
use keybridge.Base.Outcome.{Error, eof, unexpected_eof, Result, ok, err, Exec}

-- `incoming` is what the peer sends before its stream ends with `end_error`; `sent` holds the writes
-- that went through, oldest first; `write_errors` says what the next writes return, and past its end
-- they succeed.
pub record Conn : Type 0 where
  pub incoming : List ℕ
  pub end_error : Error
  pub sent : List (List ℕ)
  pub write_errors : List (Option Error)
  pub closed : Bool

-- `io.ReadFull` reports a stream that ends inside the buffer by `io.ErrUnexpectedEOF`.
abbrev pub partial_error : Error → Error
partial_error eof = unexpected_eof
partial_error e = e

abbrev pub short_error : List ℕ → Error → Error
short_error [] e = e
short_error (b ∷ bs) e = partial_error e

-- `io.ReadFull(conn, buf)` with `len(buf) = n`: what it put into `buf`, its error and the connection.
abbrev pub read_full : ℕ → Conn → List ℕ × Option Error × Conn
read_full n c =
    if leb n (length c.incoming)
    then (take n c.incoming, none, record c { incoming = drop n c.incoming })
    else (c.incoming, some (short_error c.incoming c.end_error), record c { incoming = [] })

abbrev or_error : List ℕ → Option Error → Result (List ℕ)
or_error bs none = ok bs
or_error bs (some e) = err e

-- `io.ReadFull` for a caller that returns its error.
abbrev pub read_exact : ℕ → Exec Conn (List ℕ)
read_exact n c = let (bs, e, c') = read_full n c in (or_error bs e, c')

abbrev write_with : List (Option Error) → List ℕ → Conn → Option Error × Conn
write_with [] bs c = (none, record c { sent = c.sent ++ bs ∷ [] })
write_with (none ∷ es) bs c = (none, record c { sent = c.sent ++ bs ∷ []; write_errors = es })
write_with (some e ∷ es) bs c = (some e, record c { write_errors = es })

-- `conn.Write(bs)`.
abbrev pub write : List ℕ → Conn → Option Error × Conn
write bs c = write_with c.write_errors bs c

abbrev done_or : Option Error → Result (Unit {0})
done_or none = ok tt
done_or (some e) = err e

abbrev pub write_exact : List ℕ → Exec Conn (Unit {0})
write_exact bs c = let (e, c') = write bs c in (done_or e, c')

abbrev pub close : Conn → Conn
close c = record c { closed = true }

pub read_full-append :
    (n : ℕ) (xs rest : List ℕ) (c : Conn)
    → length xs ≡ n
    → c.incoming ≡ xs ++ rest
    → read_full n c ≡ (xs, none, record c { incoming = rest })
read_full-append n xs rest c l e = rw (
  e,
  le→leb n (length (xs ++ rest)) (omega (arith, length-append xs rest)),
  take-append n xs rest l,
  drop-append n xs rest l,
)

pub read_exact-append :
    (n : ℕ) (xs rest : List ℕ) (c : Conn)
    → length xs ≡ n
    → c.incoming ≡ xs ++ rest
    → read_exact n c ≡ (ok xs, record c { incoming = rest })
read_exact-append n xs rest c l e =
    ap (λ (r : List ℕ × Option Error × Conn). (or_error r.0 r.1, r.2))
      (read_full-append n xs rest c l e)
