-- ===== src/Utils/RandomText/Tests.antt =====
-- Runs and instances of the theorem about RandomString.
use keybridge.Base.{ℕ, ◌≡◌, ◌<◌, refl, [], ◌∷◌, none, some, arith}
use keybridge.Base.Outcome.{eof, ok}
use keybridge.Utils.RandomText.{alphanum, at, letters, random_string}
use keybridge.Utils.RandomText.Alphabet.{IsText, random_string-IsText}

abbrev last : ℕ → ℕ
last i = 61

text_run : random_string 3 (3, none, 0 ∷ 72 ∷ 255 ∷ []) last ≡ ok (48 ∷ 65 ∷ 55 ∷ [])
unfolding random_string letters at alphanum
text_run = refl

short_run : random_string 2 (1, none, 0 ∷ 0 ∷ []) last ≡ ok (122 ∷ 122 ∷ [])
unfolding random_string letters at alphanum
short_run = refl

last_small : (j : ℕ) → last j < 62
last_small j = omega arith

cookie-IsText : IsText 3 (random_string 3 (0, some eof, 0 ∷ 0 ∷ 0 ∷ []) last)
cookie-IsText = random_string-IsText 3 0 (some eof) (0 ∷ 0 ∷ 0 ∷ []) last refl last_small
