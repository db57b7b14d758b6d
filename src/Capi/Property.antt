-- ===== src/Capi/Property.antt =====
-- capi/wincapi.go: nCryptSetPropertyString, by the arguments that it hands to NCryptSetProperty and what that
-- returns. A text that is converted is a pointer to its UTF-16 units; here the text stands for it.
use keybridge.Base.{ℕ, ◌≡◌, ◌↔◌, String, not, Option, none, some, ◌==◌, if◌then◌else◌, arith}
use keybridge.Base.Outcome.{Error, external}
use text.Mathlib.Text.{◌==◌ as str_eq}

-- What a procedure of Windows returns: its value, and the thread's last error, 0 if there is none.
pub record Returned : Type 0 where
  pub value : ℕ
  pub last_error : ℕ

-- The arguments of NCryptSetProperty: `size_argument` is the address of the variable with the size, in the place of the size.
pub record PropertyCall : Type 0 where
  pub object : ℕ
  pub property : String
  pub input : Option String
  pub size_argument : ℕ
  pub flags : ℕ

-- An empty text is a null pointer.
abbrev pub input_of : String → Option String
input_of text = if str_eq text "" then none else some text

-- `if r0 != 0 { return e1 }` and `if e1 != syscall.Errno(0) { return e1 }`: the first also returns an error
-- of the code 0.
pub error_of : Returned → Option Error
error_of r =
    if not (r.value == 0)
    then some (external r.last_error)
    else if not (r.last_error == 0)
    then some (external r.last_error)
    else none

-- `nCryptSetPropertyString`, by the address of its variable `dataSize`
unfoldable pub n_crypt_set_property_string :
    (PropertyCall → Returned) → ℕ → ℕ → String → String → ℕ → Option Error
unfolding error_of
n_crypt_set_property_string set_property size_address object property input flags = error_of (
    set_property (record {
      object = object;
      property = property;
      input = input_of input;
      size_argument = size_address;
      flags = flags;
    }))

-- Without an error, Windows returned 0 and left no error; with one, it did not.
pub error_of_iff : (r : Returned) → (error_of r ≡ none) ↔ ((r.value ≡ 0) × (r.last_error ≡ 0))
unfolding error_of
error_of_iff r = (λ h. (ground arith, ground arith), λ (v, e). ground arith)
