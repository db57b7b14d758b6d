-- ===== src/SshAgent/Signers/Tests.antt =====
-- Runs and instances of the theorems about sshagent/rsa.go and sshagent/ecdsa.go.
use keybridge.Base.{ℕ, String, ◌≡◌, refl, List, [], ◌∷◌, false, none, some, inr}
use keybridge.Base.Outcome.{ok}
use keybridge.Capi
use keybridge.Capi.{Returned, Windows, CryptoApi, Certificate}
use keybridge.SshAgent.Agent.{Signature}
use keybridge.SshAgent.Signers.{
  PairCodec, rsa_sign_with_algorithm, ecdsa_sign, ec_alg, rsa_algorithm, rsa_signature,
}
use keybridge.SshAgent.Signers.Algorithms.{Matches, rsa_sign_with_algorithm-Matches}

abbrev done : Returned
done = record { value = 1; last_error = 0 }

-- Each message has these digests.
abbrev api : List (List ℕ) → CryptoApi
api digests = record {
  acquire_private_key = λ context. record { returned = done; handle = 70; caller_must_free = 1 };
  sign_message = λ alg context bytes. (done, bytes);
  duplicate_context = λ context. done;
  free_context = λ context. none;
  set_property = λ call. record { value = 0; last_error = 0 };
  free_object = λ handle. 0;
  size_address = 64;
  parse_pkcs7 = λ message. inr digests;
}

abbrev cert : Certificate
cert = record {
  cert_context = 9;
  x509 = record {
    serial_number = "01";
    common_name = "user";
    usages = [];
    unknown_usages = [];
    pub_key = inr ("ecdsa-sha2-nistp384", 1 ∷ []);
    curve_bits = 384;
  };
}

abbrev windows : Windows
windows = record { contexts = 9 ∷ []; owned_keys = []; bad_frees = 0; pin_resets = [] }

abbrev codec : PairCodec
codec = record { unmarshal = λ bytes. inr (1, 2); marshal = λ pair. 1 ∷ 2 ∷ [] }

abbrev signature : Signature
signature = record { format = "rsa-sha2-256"; blob = 5 ∷ [] }

rsa_run :
    rsa_sign_with_algorithm (api ((5 ∷ []) ∷ [])) false cert (7 ∷ []) "rsa-sha2-256" windows
    ≡ (ok (some signature), windows)
unfolding rsa_sign_with_algorithm rsa_algorithm rsa_signature Capi.sign
rsa_run = refl

ecdsa_run :
    ecdsa_sign (api ((5 ∷ []) ∷ [])) false codec "ecdsa-sha2-nistp384" cert (7 ∷ []) windows
    ≡ (ok (some (record { format = "ecdsa-sha2-nistp384"; blob = 1 ∷ 2 ∷ [] })), windows)
unfolding ecdsa_sign Capi.sign
ecdsa_run = refl

signed_as_named :
    (capi_alg : String) × (others : List (List ℕ)) × Matches "rsa-sha2-256" capi_alg
    × (Capi.sign (api ((5 ∷ []) ∷ [])) false capi_alg cert (7 ∷ []) windows
        ≡ (ok ((5 ∷ []) ∷ others), windows))
signed_as_named =
    rsa_sign_with_algorithm-Matches (api ((5 ∷ []) ∷ [])) false cert (7 ∷ []) "rsa-sha2-256" windows
      windows signature rsa_run

curve_run : ec_alg 521 ≡ "1.2.840.10045.4.3.4"
unfolding ec_alg
curve_run = refl
