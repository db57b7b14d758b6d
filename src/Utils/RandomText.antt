-- ===== src/Utils/RandomText.antt =====
-- RandomString of utils/misc.go. The two sources of random numbers are parameters.
pub mod Alphabet
mod Tests
use keybridge.Base.{
  ℕ, suc, ◌%◌, List, [], ◌∷◌, Bool, true, not, Option, none, some, ◌==◌, if◌then◌else◌, get_elem?,
}
use keybridge.Base.Outcome.{Error, Result, ok, err, panic}

-- "0123456789ABCDEFGHIJKLMNOPQRSTUVWXYZabcdefghijklmnopqrstuvwxyz"
pub alphanum : List ℕ
alphanum =
    48 ∷ 49 ∷ 50 ∷ 51 ∷ 52 ∷ 53 ∷ 54 ∷ 55 ∷ 56 ∷ 57 ∷ 65 ∷ 66 ∷ 67 ∷ 68 ∷ 69 ∷ 70 ∷ 71 ∷ 72 ∷ 73
    ∷ 74 ∷ 75 ∷ 76 ∷ 77 ∷ 78 ∷ 79 ∷ 80 ∷ 81 ∷ 82 ∷ 83 ∷ 84 ∷ 85 ∷ 86 ∷ 87 ∷ 88 ∷ 89 ∷ 90 ∷ 97 ∷ 98
    ∷ 99 ∷ 100 ∷ 101 ∷ 102 ∷ 103 ∷ 104 ∷ 105 ∷ 106 ∷ 107 ∷ 108 ∷ 109 ∷ 110 ∷ 111 ∷ 112 ∷ 113 ∷ 114
    ∷ 115 ∷ 116 ∷ 117 ∷ 118 ∷ 119 ∷ 120 ∷ 121 ∷ 122 ∷ []

-- `alphanum[i]`, which panics behind the end.
pub at : ℕ → Result ℕ
unfolding alphanum
at i = elim (get_elem? alphanum i) [ some b ↦ ok b | none ↦ panic ]

abbrev and_byte : Result ℕ → Result (List ℕ) → Result (List ℕ)
and_byte (ok b) (ok bs) = ok (b ∷ bs)
and_byte (ok b) (err e) = err e
and_byte (ok b) panic = panic
and_byte (err e) bs = err e
and_byte panic bs = panic

-- The loop, by whether the bytes are random already; `intn` gives the numbers of `rand.Intn` by position.
pub letters : Bool → (ℕ → ℕ) → ℕ → List ℕ → Result (List ℕ)
unfolding at
letters randby intn i [] = ok []
letters randby intn i (b ∷ bs) =
    and_byte (if randby then at (intn i) else at (b % 62)) (letters randby intn (suc i) bs)

-- `RandomString(n)`, by what `cryptornd.Read` returns: a count, an error and the buffer behind it.
pub random_string : ℕ → ℕ × Option Error × List ℕ → (ℕ → ℕ) → Result (List ℕ)
unfolding letters
random_string n (num, none, bytes) intn = letters (not (num == n)) intn 0 bytes
random_string n (num, some e, bytes) intn = letters true intn 0 bytes
