-- ===== src/Startup/Begin/Tests.antt =====
-- Runs and instances of the theorems about the beginning of `main`.
use keybridge.Base.{◌≡◌, refl, [], ◌∷◌, true, false, none, some, inr, arith}
use keybridge.Base.Outcome.{ok}
use keybridge.SshAgent.HyperV.{Parent}
use keybridge.Startup.Begin.{LogFiles, System, relays, Ground, begin, init_debug_log}
use keybridge.Startup.Begin.Outcomes.{Outcome, begin-Outcome}

abbrev host : Parent
host = record {
  guid_from_string = inr 1;
  dial = λ svcid dials. inr 7;
  client_list = λ conn. ok [];
  client_sign = λ conn key bytes. ok none;
}

abbrev files : LogFiles
files = record {
  debug = true;
  home = inr "home";
  open_file = λ home. inr 5;
  set_output_error = none;
  set_error_error = some "denied";
}

abbrev system : System
system = record {
  parse = λ args.
      inr (record { install_hv_service = false; disable_capi = false; disable_pin_cache = true });
  parent = host;
  icon_error = none;
  notifier_error = none;
  files = files;
}

abbrev ground_first : Ground
ground_first = record {
  output = record {
    output_handle = 1;
    error_handle = 2;
    go_output = 1;
    go_error = 2;
    open_files = [];
  };
  links = record { dials = 0; opened = []; closed = [] };
  desktop = record { has_notifier = false; shown = [] };
}

-- The second call of SetStdHandle fails: the file stays open, and only the first handle goes to it.
half_logged : init_debug_log files ground_first.output ≡ record {
  output_handle = 5;
  error_handle = 2;
  go_output = 1;
  go_error = 2;
  open_files = 5 ∷ [];
}
unfolding init_debug_log
half_logged = refl

relay_run :
    begin ("keybridge" ∷ "relay" ∷ "-v" ∷ []) system ground_first
    ≡ (relays ("-v" ∷ []), ground_first)
unfolding begin
relay_run = refl

guest-Outcome :
    Outcome ("keybridge" ∷ []) system ground_first (begin ("keybridge" ∷ []) system ground_first)
guest-Outcome =
    begin-Outcome ("keybridge" ∷ []) system ground_first
      (record { all_closed = refl; each_dialled = omega arith })
