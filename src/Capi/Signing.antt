-- ===== src/Capi/Signing.antt =====
-- What `Sign` leaves of the key handles that it acquires, and when it resets the PIN.
use keybridge.Base.{
  ℕ, ◌≡◌, ◌≢◌, String, List, [], ◌∷◌, ◌++◌, Bool, true, false, ◌⊎◌, none, some, arith,
}
use keybridge.Base.Outcome.{Error}
use keybridge.Capi.{CryptoApi, Windows, Certificate, Acquired, sign, reset_error}

-- A key was acquired: the call succeeded, with no last error, and gave a handle.
abbrev pub Uses : Acquired → Type 0
Uses a = (a.returned.value ≢ 0) × (a.returned.last_error ≡ 0) × (a.handle ≢ 0)

-- What is left of the key handles: what was there, or also the handle of a key that must be freed and was not,
-- for one of these reasons.
abbrev pub KeysLeft : CryptoApi → Acquired → Windows → Windows → Type 0
KeysLeft api a w w' =
    (w'.owned_keys ≡ w.owned_keys)
    ⊎ ((w'.owned_keys ≡ a.handle ∷ w.owned_keys)
        × (a.returned.value ≢ 0)
        × (a.caller_must_free ≢ 0)
        × ((a.returned.last_error ≢ 0) ⊎ ((a.handle ≡ 0) ⊎ (api.free_object a.handle ≢ 0))))

-- What is left of the PINs: they are as they were, and then no key was acquired, or the reset has failed; or the
-- key's PIN was forgotten once.
abbrev pub PinsLeft : CryptoApi → Bool → Acquired → Windows → Windows → Type 0
PinsLeft api disable_pin_cache a w w' =
    ((w'.pin_resets ≡ w.pin_resets)
      × ((disable_pin_cache ≡ false)
          ⊎ ((a.returned.value ≡ 0)
              ⊎ ((a.returned.last_error ≢ 0)
                  ⊎ ((a.handle ≡ 0) ⊎ ((e : Error) × (reset_error api a.handle ≡ some e)))))))
    ⊎ ((w'.pin_resets ≡ w.pin_resets ++ a.handle ∷ [])
        × (disable_pin_cache ≡ true)
        × Uses a
        × (reset_error api a.handle ≡ none))

pub record Released (api : CryptoApi) (disable_pin_cache : Bool) (a : Acquired) (w w' : Windows)
    : Type 0 where
  pub contexts : w'.contexts ≡ w.contexts
  pub bad_frees : w'.bad_frees ≡ w.bad_frees
  pub keys : KeysLeft api a w w'
  pub pins : PinsLeft api disable_pin_cache a w w'

-- With the PIN cache off, a call that Windows lets succeed with an error left behind from before, for
-- a key that the caller must free, leaves the key's handle owned.
pub sign_leaks_key :
    (api : CryptoApi) (alg : String) (cert : Certificate) (bytes : List ℕ) (w : Windows)
    → let a = api.acquire_private_key cert.cert_context in
      a.returned.value ≢ 0
      → a.returned.last_error ≢ 0
      → a.caller_must_free ≢ 0
      → (sign api true alg cert bytes w).1.owned_keys ≡ a.handle ∷ w.owned_keys
unfolding sign
sign_leaks_key api alg cert bytes w succeeded left owned = ground arith
