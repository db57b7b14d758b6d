-- ===== src/Capi/Tests.antt =====
-- Runs and instances of the theorems about capi/wincapi.go.
use keybridge.Base.{ℕ, ◌≡◌, refl, List, [], ◌∷◌, true, none, some, inr}
use keybridge.Base.Outcome.{ok}
use keybridge.Capi.Property.{n_crypt_set_property_string}
use keybridge.Capi.{
  Returned, Windows, CryptoApi, X509, Certificate, StoreEntry, StoreEnd, no_more, UserStore, count,
  free, visit, load_user_certs, sign, alg_rsa_sha256rsa,
}
use keybridge.Capi.Store.{usable, load_user_certs_lem}

abbrev plain_returned : ℕ → Returned
plain_returned v = record { value = v; last_error = 0 }

-- Keys are acquired with this last error, and must be freed; contexts are duplicated in place.
abbrev api_with : ℕ → CryptoApi
api_with last_error = record {
  acquire_private_key = λ context. record {
    returned = record { value = 1; last_error = last_error };
    handle = 70;
    caller_must_free = 1;
  };
  sign_message = λ alg context bytes. (plain_returned 1, 48 ∷ bytes);
  duplicate_context = λ context. plain_returned context;
  free_context = λ context. none;
  set_property = λ call. record { value = 0; last_error = 0 };
  free_object = λ handle. 0;
  size_address = 64;
  parse_pkcs7 = λ message. inr (message ∷ []);
}

abbrev api : CryptoApi
api = api_with 0

abbrev x509 : X509
x509 = record {
  serial_number = "01";
  common_name = "user";
  usages = [];
  unknown_usages = [];
  pub_key = inr ("ssh-rsa", 1 ∷ []);
  curve_bits = 0;
}

abbrev cert : Certificate
cert = record { cert_context = 9; x509 = x509 }

abbrev windows : Windows
windows = record { contexts = 9 ∷ []; owned_keys = []; bad_frees = 0; pin_resets = [] }

abbrev entries : List StoreEntry
entries =
    record { context = 4; key_spec = 1; parsed = some x509 }
    ∷ record { context = 5; key_spec = 0; parsed = some x509 }
    ∷ record { context = 6; key_spec = 1; parsed = none }
    ∷ []

abbrev store : StoreEnd → UserStore
store end = record { open_error = none; entries = entries; end = end }

sign_run :
    sign api true alg_rsa_sha256rsa cert (1 ∷ 2 ∷ []) windows
    ≡ (ok ((48 ∷ 1 ∷ 2 ∷ []) ∷ []), record windows { pin_resets = 70 ∷ [] })
unfolding sign n_crypt_set_property_string
sign_run = refl

load_run : (load_user_certs api (store no_more) windows).1.contexts ≡ 4 ∷ 9 ∷ []
unfolding load_user_certs visit
load_run = refl

free_run : (free api cert windows).1.contexts ≡ []
unfolding free
free_run = refl

certs_loaded :
    ((load_user_certs api (store no_more) windows).0 ≡ ok (usable api entries))
    × (count 4 (load_user_certs api (store no_more) windows).1.contexts ≡ 1)
certs_loaded = load_user_certs_lem api (store no_more) windows 4 refl refl
