-- ===== src/SshAgent/CapiAgent/Tests.antt =====
-- Runs and instances of the theorems about sshagent/capi_agent.go and sshagent/certificate.go.
use keybridge.Base.{
  ℕ, String, ◌≡◌, refl, List, [], ◌∷◌, true, false, Option, none, some, inl, inr, arith,
}
use keybridge.Base.Outcome.{eof, ok, Exec}
use keybridge.Capi.{Returned, Windows, CryptoApi, Certificate, no_more}
use keybridge.SshAgent.Agent.{Signature}
use keybridge.SshAgent.Signers.{rsa_signer}
use keybridge.SshAgent.CapiAgent.{Outside, SshKey, CapiAgent, certificate, list}
use keybridge.SshAgent.CapiAgent.Signing.{
  ask_service, sign, sign_found, sign_loaded, find, sign_with_flags,
}
use keybridge.SshAgent.CapiAgent.Handles.{AgentHolds, list-Holds}
use keybridge.SshAgent.CapiAgent.Requests.{Replied, sign_with_flags-Replied}

abbrev done : ℕ → Returned
done v = record { value = v; last_error = 0 }

-- Each message has these digests.
abbrev api : List (List ℕ) → CryptoApi
api digests = record {
  acquire_private_key = λ context. record { returned = done 1; handle = 70; caller_must_free = 1 };
  sign_message = λ alg context bytes. (done 1, bytes);
  duplicate_context = λ context. done context;
  free_context = λ context. none;
  set_property = λ call. record { value = 0; last_error = 0 };
  free_object = λ handle. 0;
  size_address = 64;
  parse_pkcs7 = λ message. inr digests;
}

abbrev cert : Certificate
cert = record {
  cert_context = 9;
  x509 = record {
    serial_number = "01";
    common_name = "user";
    usages = [];
    unknown_usages = [];
    pub_key = inr ("ssh-rsa", 1 ∷ []);
    curve_bits = 0;
  };
}

abbrev outside : List (List ℕ) → Outside
outside digests = record {
  api = api digests;
  disable_pin_cache = false;
  store = record {
    open_error = none;
    entries = record { context = 4; key_spec = 1; parsed = some cert.x509 } ∷ [];
    end = no_more;
  };
  codec = record { unmarshal = λ bytes. inl eof; marshal = λ pair. [] };
  join = λ home name. name;
  user_home_dir = inr "home";
  read_file = λ name. inr [];
  parse_authorized_key = λ bytes. inr (certificate (record { key_id = "id"; blob = 2 ∷ [] }));
  new_cert_signer = λ c signer. inr signer;
  check_service = false;
  service_running = inr true;
  answer = 0;
}

abbrev rsa_key : List (List ℕ) → SshKey
rsa_key digests = record {
  cert = cert;
  signer = rsa_signer (api digests) false "ssh-rsa" (1 ∷ []) cert;
  comment = "user";
}

abbrev signature : Signature
signature = record { format = "ssh-rsa"; blob = 8 ∷ [] }

-- A key whose signer does not use the Crypto API.
abbrev by : List ℕ → String → Exec Windows (Option Signature)
by bytes algorithm w = (ok (some (record { format = algorithm; blob = 8 ∷ [] })), w)

abbrev soft_key : SshKey
soft_key = record {
  cert = cert;
  signer = record {
    public_format = "ssh-rsa";
    public_blob = 1 ∷ [];
    sign = λ bytes w. (ok (some signature), w);
    sign_with_algorithm = some by;
  };
  comment = "user";
}

abbrev windows : Windows
windows = record { contexts = 9 ∷ []; owned_keys = []; bad_frees = 0; pin_resets = [] }

abbrev agent : SshKey → CapiAgent
agent k = record {
  keys = some (k ∷ []);
  windows = windows;
  desktop = record { has_notifier = true; shown = [] };
  service_starts = 0;
}

agent-Holds : AgentHolds (agent soft_key) [] 0
agent-Holds = record { each = λ h. omega arith; no_bad = refl }

references_kept : AgentHolds (list (outside []) (agent soft_key)).1 [] 0
references_kept = list-Holds (outside []) (agent soft_key) [] 0 refl agent-Holds

sign_run : (sign (outside []) (1 ∷ []) (7 ∷ []) (agent soft_key)).0 ≡ ok (some signature)
unfolding sign sign_loaded sign_found find ask_service
sign_run = refl

-- The keys are not loaded yet, and Windows lists the certificate that the store has.
abbrev fresh : CapiAgent
fresh = record (agent soft_key) { keys = none }

request-Replied :
    Replied
      (outside [])
      fresh
      (1 ∷ [])
      (7 ∷ [])
      4
      (sign_with_flags (outside []) (1 ∷ []) (7 ∷ []) 4 fresh)
request-Replied = sign_with_flags-Replied (outside []) fresh (1 ∷ []) (7 ∷ []) 4
