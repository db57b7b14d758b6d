-- ===== src/Utils/System.antt =====
-- utils/security.go, utils/scardsvr.go and utils/dpi.go: who this process is, the smart card service, and
-- the awareness of the screen's resolution, by what Windows answers.
mod Tests
use Prim.Native.String.{String}
use text.Mathlib.Text.{◌==◌ as str_eq}
use keybridge.Base.{
  ℕ, List, [], ◌∷◌, Bool, false, Option, none, some, ◌⊎◌, inl, inr, ◌==◌, if◌then◌else◌,
}
use keybridge.Base.Outcome.{Error}

-- `GetUserSID`, by GetTokenUser
pub get_user_sid : Error ⊎ ℕ → Error ⊎ ℕ
get_user_sid (inl e) = inl e
get_user_sid (inr sid) = inr sid

-- `GetHandleSID`, by GetSecurityInfo and the owner of a security descriptor
pub get_handle_sid : (ℕ → Error ⊎ ℕ) → (ℕ → Error ⊎ ℕ) → ℕ → Error ⊎ ℕ
get_handle_sid get_security_info owner handle = elim (get_security_info handle) [
  | inl e ↦ inl e
  | inr descriptor ↦ owner descriptor
]

-- `GetDefaultSID`, of the handle of this process
pub get_default_sid : (ℕ → Error ⊎ ℕ) → (ℕ → Error ⊎ ℕ) → ℕ → Error ⊎ ℕ
unfolding get_handle_sid
get_default_sid get_security_info owner current_process =
    get_handle_sid get_security_info owner current_process

-- `CheckSCardSvrStatus`, by the states of the services that the query finds
pub check_s_card_svr_status : Error ⊎ List String → Error ⊎ Bool
check_s_card_svr_status (inl e) = inl e
check_s_card_svr_status (inr []) = inr false
check_s_card_svr_status (inr (state ∷ states)) = inr (str_eq state "Running")

-- The three procedures, each if it is there, with what it returns; and the error of the last call.
pub record DpiCalls : Type 0 where
  pub context : Option ℕ
  pub awareness : Option ℕ
  pub aware : Option ℕ
  pub call_error : Error

-- `if r0 == 1 { return nil }; return err`
abbrev one_or : ℕ → Error → Option Error
one_or r e = if r == 1 then none else some e

by_aware : DpiCalls → Option ℕ → Option Error
by_aware c none = none
by_aware c (some r) = one_or r c.call_error

by_awareness : DpiCalls → Option ℕ → Option Error
unfolding by_aware
by_awareness c none = by_aware c c.aware
by_awareness c (some r) = one_or r c.call_error

by_context : DpiCalls → Option ℕ → Option Error
unfolding by_awareness
by_context c none = by_awareness c c.awareness
by_context c (some r) = if r == 1 then none else by_awareness c c.awareness

-- `SetProcessSystemDpiAware`
pub set_process_system_dpi_aware : DpiCalls → Option Error
unfolding by_context
set_process_system_dpi_aware c = by_context c c.context
