-- ===== src/Utils/System/Tests.antt =====
-- Runs of utils/security.go, utils/scardsvr.go and utils/dpi.go.
use keybridge.Base.{ℕ, ◌≡◌, refl, [], ◌∷◌, true, none, some, ◌⊎◌, inl, inr}
use keybridge.Base.Outcome.{Error, eof}
use keybridge.Utils.System.{
  get_user_sid, get_handle_sid, get_default_sid, check_s_card_svr_status, by_awareness, by_context,
  set_process_system_dpi_aware,
}

abbrev next : ℕ → Error ⊎ ℕ
next n = inr 5

user_run : get_user_sid (inr 7) ≡ inr 7
unfolding get_user_sid
user_run = refl

default_run : get_default_sid next (λ d. inl eof) 1 ≡ inl eof
unfolding get_default_sid get_handle_sid
default_run = refl

service_run : check_s_card_svr_status (inr ("Running" ∷ [])) ≡ inr true
unfolding check_s_card_svr_status
service_run = refl

-- S_OK, which is 0, is taken for a failure.
awareness_run :
    set_process_system_dpi_aware
      (record { context = none; awareness = some 0; aware = some 1; call_error = eof })
    ≡ some eof
unfolding set_process_system_dpi_aware by_context by_awareness
awareness_run = refl
