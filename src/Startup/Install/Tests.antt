-- ===== src/Startup/Install/Tests.antt =====
-- Runs of installService.
use keybridge.Base.{◌≡◌, refl, [], true, false, none, inr}
use keybridge.Startup.Install.{
  Windows, State, is_admin, report, set_value, create_key, open_key, run_with_privilege, elevated,
  install_service,
}

abbrev windows : Windows
windows = record {
  sid_error = none;
  is_member = inr true;
  elevate_error = none;
  privilege_error = none;
  open_error = none;
  create_error = none;
  set_error = none;
}

abbrev state : State
state = record { boxes = []; elevations = 0; open_keys = 0; registered = false }

registered_run : (install_service windows state).registered ≡ true
unfolding install_service is_admin run_with_privilege open_key create_key set_value report
registered_run = refl

leak_run : (install_service windows state).open_keys ≡ 1
unfolding install_service is_admin run_with_privilege open_key create_key set_value report
leak_run = refl

user_run :
    install_service (record windows { is_member = inr false }) state
    ≡ record state { elevations = 1 }
unfolding install_service is_admin elevated
user_run = refl
