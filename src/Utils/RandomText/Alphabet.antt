-- ===== src/Utils/RandomText/Alphabet.antt =====
-- What RandomString returns.
use keybridge.Base.{
  ℕ, zero, suc, ◌%◌, ◌<◌, ◌≡◌, refl, ap, List, [], ◌∷◌, Bool, true, false, ◌&&◌, ◌||◌, not, Option,
  none, some, ◌==◌, leb, get_elem?, length, All, arith,
}
use keybridge.Base.Outcome.{Error, Result, ok}
use keybridge.Utils.RandomText.{alphanum, at, and_byte, letters, random_string}

-- A digit or a letter of ASCII.
abbrev pub is_alphanumeric : ℕ → Bool
is_alphanumeric b = (leb 48 b && leb b 57) || ((leb 65 b && leb b 90) || (leb 97 b && leb b 122))

all : List ℕ → Bool
all [] = true
all (b ∷ bs) = is_alphanumeric b && all bs

-- A text of this length from the alphabet, without a panic.
abbrev pub IsText : ℕ → Result (List ℕ) → Type 0
IsText n r =
    (text : List ℕ) × (r ≡ ok text) × (length text ≡ n) × All (λ b. is_alphanumeric b ≡ true) text

found :
    (bs : List ℕ) (i : ℕ)
    → all bs ≡ true
    → i < length bs
    → (b : ℕ) × (get_elem? bs i ≡ some b) × (is_alphanumeric b ≡ true)
unfolding all
found [] i a h = absurd (omega arith)
found (b ∷ bs) zero a h = (b, refl, ground arith)
found (b ∷ bs) (suc i) a h = found bs i (ground arith) (omega arith)

all-alphanum : all alphanum ≡ true
unfolding all alphanum
all-alphanum = refl

length-alphanum : length alphanum ≡ 62
unfolding alphanum
length-alphanum = refl

at-IsText : (i : ℕ) → i < 62 → (b : ℕ) × (at i ≡ ok b) × (is_alphanumeric b ≡ true)
unfolding at
at-IsText i h =
    let (b, e, a) = found alphanum i all-alphanum (omega (arith, h, length-alphanum)) in
    (b, rw e refl, a)

and_byte-IsText :
    (n : ℕ) (r : Result ℕ) (rs : Result (List ℕ))
    → ((b : ℕ) × (r ≡ ok b) × (is_alphanumeric b ≡ true))
    → IsText n rs
    → IsText (suc n) (and_byte r rs)
and_byte-IsText n r rs (b, e, a) (text, e', l, others) =
    (b ∷ text, rw (e, e') refl, ap suc l, (a, others))

letters-IsText :
    (randby : Bool) (intn : ℕ → ℕ) (i : ℕ) (bytes : List ℕ)
    → ((j : ℕ) → intn j < 62)
    → IsText (length bytes) (letters randby intn i bytes)
unfolding letters
letters-IsText randby intn i [] small = ([], refl, refl, tt)
letters-IsText true intn i (b ∷ bs) small =
    and_byte-IsText (length bs) (at (intn i)) _ (at-IsText (intn i) (small i))
      (letters-IsText true intn (suc i) bs small)
letters-IsText false intn i (b ∷ bs) small =
    and_byte-IsText (length bs) (at (b % 62)) _ (at-IsText (b % 62) (omega arith))
      (letters-IsText false intn (suc i) bs small)

-- However the system's source of random bytes ends, with all bytes, with some of them or with an error: a
-- random string has the length asked for, each of its bytes is an ASCII digit or letter, and no index is
-- out of bounds, if the other source, `rand.Intn(62)`, gives numbers below 62 as it says.
pub random_string-IsText :
    (n num : ℕ) (e : Option Error) (bytes : List ℕ) (intn : ℕ → ℕ)
    → length bytes ≡ n
    → ((j : ℕ) → intn j < 62)
    → IsText n (random_string n (num, e, bytes) intn)
unfolding random_string
random_string-IsText n num none bytes intn filled small =
    rw⁻¹ filled (letters-IsText (not (num == length bytes)) intn 0 bytes small)
random_string-IsText n num (some e) bytes intn filled small =
    rw⁻¹ filled (letters-IsText true intn 0 bytes small)
