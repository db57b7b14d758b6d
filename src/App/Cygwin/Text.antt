-- ===== src/App/Cygwin/Text.antt =====
-- The secret's text, in groups of eight digits, can be read back.
use keybridge.Base.{
  ℕ, zero, suc, ◌+◌, ◌-◌, ◌*◌, ◌/◌, ◌%◌, ◌≡◌, ◌<◌, refl, ap, List, [], ◌∷◌, ◌++◌, ltb, ◌==◌,
  if◌then◌else◌, false, drop, length, arith, All, length-append,
}
use keybridge.App.Cygwin.{uuid_to_string, hex_groups, hex_group, hex_byte, hex_digit}

abbrev pub unhex : ℕ → ℕ
unhex c = if ltb c 58 then c - 48 else c - 87

abbrev pub unhex_byte : ℕ → ℕ → ℕ
unhex_byte hi lo = unhex hi * 16 + unhex lo

-- A reader of such a text: eight digits a group, the last byte of a group first, and one byte skipped
-- between the groups.
abbrev pub read_groups : ℕ → List ℕ → List ℕ
read_groups (suc n) (d ∷ d' ∷ c ∷ c' ∷ b ∷ b' ∷ a ∷ a' ∷ text) =
    unhex_byte a a'
    ∷ unhex_byte b b'
    ∷ unhex_byte c c'
    ∷ unhex_byte d d'
    ∷ read_groups n (drop 1 text)
read_groups n text = []

unhex-hex_digit : (n : ℕ) → n < 16 → unhex (hex_digit n) ≡ n
unfolding hex_digit
unhex-hex_digit n h = ground arith

unhex-hex_byte : (b : ℕ) → b < 256 → unhex_byte (hex_digit (b / 16)) (hex_digit (b % 16)) ≡ b
unhex-hex_byte b h =
    rw (unhex-hex_digit (b / 16) (omega arith), unhex-hex_digit (b % 16) (omega arith))
      (omega arith)

after_dash :
    (n : ℕ) (rest : List ℕ)
    → read_groups n (hex_groups n rest) ≡ rest
    → read_groups n (drop 1 ((if n == 0 then [] else 45 ∷ []) ++ hex_groups n rest)) ≡ rest
after_dash zero rest e = e
after_dash (suc n) rest e = let last : (suc n == 0) ≡ false = ground arith in rw last e

length-hex_groups :
    (n : ℕ) (uuid : List ℕ) → length uuid ≡ 4 * n → length (hex_groups n uuid) ≡ 9 * n - 1
unfolding hex_groups hex_group hex_byte
length-hex_groups zero uuid l = refl
length-hex_groups (suc n) [] l = absurd (omega arith)
length-hex_groups (suc n) (x ∷ []) l = absurd (omega arith)
length-hex_groups (suc n) (x ∷ y ∷ []) l = absurd (omega arith)
length-hex_groups (suc n) (x ∷ y ∷ z ∷ []) l = absurd (omega arith)
length-hex_groups (suc n) (x ∷ y ∷ z ∷ w ∷ rest) l = ground (
  arith,
  length-append (if n == 0 then [] else 45 ∷ []) (hex_groups n rest),
  length-hex_groups n rest (omega arith),
)

read_groups-hex_groups :
    (n : ℕ) (uuid : List ℕ)
    → length uuid ≡ 4 * n
    → All (λ b. b < 256) uuid
    → read_groups n (hex_groups n uuid) ≡ uuid
unfolding hex_groups hex_group hex_byte
read_groups-hex_groups zero [] l a = refl
read_groups-hex_groups zero (x ∷ xs) l a = absurd (omega arith)
read_groups-hex_groups (suc n) [] l a = absurd (omega arith)
read_groups-hex_groups (suc n) (x ∷ []) l a = absurd (omega arith)
read_groups-hex_groups (suc n) (x ∷ y ∷ []) l a = absurd (omega arith)
read_groups-hex_groups (suc n) (x ∷ y ∷ z ∷ []) l a = absurd (omega arith)
read_groups-hex_groups (suc n) (x ∷ y ∷ z ∷ w ∷ rest) l (hx, (hy, (hz, (hw, a)))) =
    rw (unhex-hex_byte x hx, unhex-hex_byte y hy, unhex-hex_byte z hz, unhex-hex_byte w hw)
      (ap (λ bs. x ∷ y ∷ z ∷ w ∷ bs)
        (after_dash n rest (read_groups-hex_groups n rest (omega arith) a)))

-- The text of a secret of 16 bytes, each below 256, has 35 characters, and the reader gets the same 16
-- bytes back from it.
pub uuid_to_string-read_groups :
    (uuid : List ℕ)
    → length uuid ≡ 16
    → All (λ b. b < 256) uuid
    → (length (uuid_to_string uuid) ≡ 35) × (read_groups 4 (uuid_to_string uuid) ≡ uuid)
unfolding uuid_to_string
uuid_to_string-read_groups uuid l a =
    (length-hex_groups 4 uuid l, read_groups-hex_groups 4 uuid l a)
