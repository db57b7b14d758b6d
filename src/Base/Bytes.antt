-- ===== src/Base/Bytes.antt =====
-- Bytes are numbers below 256; `encoding/binary` over lists of them.
use Prim.Native.Nat.{ℕ, ◌+◌, ◌*◌, ◌/◌, ◌%◌, ◌^◌, ◌<◌}
use mathlib.Core.Path.{◌≡◌, refl}
use mathlib.Core.List.{List, [], ◌∷◌, ◌++◌}
use keybridge.Base.Lists.{length}
use native.Mathlib.Omega.{arith}

-- The wrap of a `uint32`.
abbrev pub u32 : ℕ → ℕ
u32 n = n % 2 ^ 32

-- `binary.BigEndian.Uint32`, `binary.LittleEndian.Uint32`: callers pass four bytes at least.
unfoldable pub big_endian : List ℕ → ℕ
big_endian (a ∷ b ∷ c ∷ d ∷ _) = a * 16777216 + b * 65536 + c * 256 + d
big_endian _ = 0

unfoldable pub little_endian : List ℕ → ℕ
little_endian (a ∷ b ∷ c ∷ d ∷ _) = d * 16777216 + c * 65536 + b * 256 + a
little_endian _ = 0

-- The four bytes of `binary.BigEndian.PutUint32` and `binary.LittleEndian.PutUint32`.
unfoldable pub put_big_endian : ℕ → List ℕ
put_big_endian n = (n / 16777216 % 256) ∷ (n / 65536 % 256) ∷ (n / 256 % 256) ∷ (n % 256) ∷ []

unfoldable pub put_little_endian : ℕ → List ℕ
put_little_endian n = (n % 256) ∷ (n / 256 % 256) ∷ (n / 65536 % 256) ∷ (n / 16777216 % 256) ∷ []

pub big_endian-put :
    (n : ℕ) (rest : List ℕ) → n < 2 ^ 32 → big_endian (put_big_endian n ++ rest) ≡ n
unfolding big_endian put_big_endian
big_endian-put n rest h = omega arith

pub big_endian-put_self : (n : ℕ) → n < 2 ^ 32 → big_endian (put_big_endian n) ≡ n
unfolding big_endian put_big_endian
big_endian-put_self n h = omega arith

pub length-put_big_endian : (n : ℕ) → length (put_big_endian n) ≡ 4
unfolding put_big_endian
length-put_big_endian n = refl

pub little_endian-put :
    (n : ℕ) (rest : List ℕ) → n < 2 ^ 32 → little_endian (put_little_endian n ++ rest) ≡ n
unfolding little_endian put_little_endian
little_endian-put n rest h = omega arith
