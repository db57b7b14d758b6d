-- ===== src/Startup/Tests.antt =====
-- Runs and instances of the theorems about main.go and menu.go.
use keybridge.Base.{ℕ, String, suc, ◌≡◌, refl, List, [], ◌∷◌, true, false, none, some, inl, inr}
use keybridge.Base.Outcome.{eof, errorf, Result, ok, err, panic, Exec}
use keybridge.Capi.{Windows, no_more}
use keybridge.SshAgent.KeyRing.{Keyring}
use keybridge.SshAgent.CapiAgent.{Outside, SshKey}
use keybridge.SshAgent.HyperV.{Parent}
use keybridge.SshAgent.Wrapped.{sign_by}
use keybridge.App.Clicks.{cygwin, vsock}
use keybridge.Startup.{Process, choose_agent, key_ring_agent, hv_agent}
use keybridge.Startup.Requests.{answer, request-answer}
use keybridge.Startup.Menu.{clicked, balloon, interrupt, event_loop, register_all}
use keybridge.Startup.Menu.Events.{event_loop-called}

abbrev counted : {A : Type 0} → Result A → Exec ℕ A
counted r n = (r, suc n)

-- A keyring without keys.
abbrev keyring : Keyring ℕ
keyring = record {
  list = counted (ok []);
  sign_with_flags = λ key bytes flags. counted (err (errorf "not found" []));
  add = λ key. counted (ok tt);
  remove = λ key. counted (ok tt);
  remove_all = counted (ok tt);
  lock = λ passphrase. counted (ok tt);
  unlock = λ passphrase. counted (err eof);
  signers = counted (ok []);
}

abbrev base64 : List ℕ → String
base64 bytes = "AQ=="

abbrev outside : Outside
outside = record {
  api = record {
    acquire_private_key = λ context. record {
      returned = record { value = 0; last_error = 1 };
      handle = 0;
      caller_must_free = 0;
    };
    sign_message = λ alg context bytes. (record { value = 0; last_error = 1 }, bytes);
    duplicate_context = λ context. record { value = context; last_error = 0 };
    free_context = λ context. none;
    set_property = λ call. record { value = 0; last_error = 0 };
    free_object = λ handle. 0;
    size_address = 64;
    parse_pkcs7 = λ message. inl eof;
  };
  disable_pin_cache = false;
  store = record { open_error = none; entries = []; end = no_more };
  codec = record { unmarshal = λ bytes. inl eof; marshal = λ pair. [] };
  join = λ home name. name;
  user_home_dir = inr "home";
  read_file = λ name. inl eof;
  parse_authorized_key = λ bytes. inl eof;
  new_cert_signer = λ c signer. inr signer;
  check_service = false;
  service_running = inr true;
  answer = 0;
}

abbrev card_key : SshKey
card_key = record {
  cert = record {
    cert_context = 9;
    x509 = record {
      serial_number = "01";
      common_name = "user";
      usages = [];
      unknown_usages = [];
      pub_key = inr ("ssh-rsa", 1 ∷ []);
      curve_bits = 0;
    };
  };
  signer = record {
    public_format = "ssh-rsa";
    public_blob = 1 ∷ [];
    sign = λ bytes w. (ok (some (record { format = "ssh-rsa"; blob = 8 ∷ [] })), w);
    sign_with_algorithm = none;
  };
  comment = "user";
}

abbrev windows : Windows
windows = record { contexts = 9 ∷ []; owned_keys = []; bad_frees = 0; pin_resets = [] }

abbrev process : Process ℕ
process = record {
  keyring = 0;
  capi = record {
    keys = some (card_key ∷ []);
    windows = windows;
    desktop = record { has_notifier = true; shown = [] };
    service_starts = 0;
  };
  links = record { dials = 0; opened = []; closed = [] };
}

abbrev parent : Parent
parent = record {
  guid_from_string = inr 5;
  dial = λ svcid dials. inl eof;
  client_list = λ conn. ok [];
  client_sign = λ conn key bytes. panic;
}

request_to_both :
    sign_by (choose_agent false false keyring base64 outside parent) (3 ∷ []) (7 ∷ []) 0 process
    ≡ answer keyring base64 outside process [] (3 ∷ []) (7 ∷ []) 0 (err (errorf "not found" []), 2)
request_to_both = request-answer keyring base64 outside parent process [] (3 ∷ []) (7 ∷ []) 0 1 refl

disabled_run :
    choose_agent {S = ℕ} false true keyring base64 outside parent ≡ key_ring_agent keyring base64
unfolding choose_agent
disabled_run = refl

guest_run : choose_agent {S = ℕ} true true keyring base64 outside parent ≡ hv_agent parent
unfolding choose_agent
guest_run = refl

clicks_called :
    event_loop
      (register_all true)
      (clicked 3 ∷ balloon ∷ clicked 8 ∷ clicked 11 ∷ interrupt ∷ clicked 4 ∷ [])
      (record { called = []; cleaning_up = false })
    ≡ record { called = cygwin ∷ vsock ∷ []; cleaning_up = true }
clicks_called =
    event_loop-called true
      (clicked 3 ∷ balloon ∷ clicked 8 ∷ clicked 11 ∷ interrupt ∷ clicked 4 ∷ [])
