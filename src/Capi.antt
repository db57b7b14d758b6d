-- ===== src/Capi.antt =====
-- capi/wincapi.go: certificates of the Windows store, and signing by CryptSignMessage. The Windows
-- procedures and the PKCS #7 parser are parameters.
pub mod Store
pub mod Signing
pub mod Handles
pub mod Property
mod Tests
use keybridge.Base.{
  ℕ, suc, String, List, [], ◌∷◌, ◌++◌, Bool, Option, none, some, ◌⊎◌, inl, inr, not, ◌==◌,
  if◌then◌else◌,
}
use keybridge.Base.Outcome.{Error, errorf, external, Result, ok, err, panic, Exec, ◌>>=◌, pure}
pub use keybridge.Capi.Property.{Returned, PropertyCall}
use keybridge.Capi.Property.{n_crypt_set_property_string}
use keybridge.SshAgent.Eku.{ExtKeyUsage, Oid}

-- The object identifiers of the algorithms.
abbrev pub alg_rsa_sha1rsa : String
alg_rsa_sha1rsa = "1.2.840.113549.1.1.5"

abbrev pub alg_rsa_sha256rsa : String
alg_rsa_sha256rsa = "1.2.840.113549.1.1.11"

abbrev pub alg_rsa_sha512rsa : String
alg_rsa_sha512rsa = "1.2.840.113549.1.1.13"

abbrev pub alg_ecdsa_sha256 : String
alg_ecdsa_sha256 = "1.2.840.10045.4.3.2"

abbrev pub alg_ecdsa_sha384 : String
alg_ecdsa_sha384 = "1.2.840.10045.4.3.3"

abbrev pub alg_ecdsa_sha512 : String
alg_ecdsa_sha512 = "1.2.840.10045.4.3.4"

-- `CryptAcquireCertificatePrivateKey`: also the key's handle and whether the caller must free it.
pub record Acquired : Type 0 where
  pub returned : Returned
  pub handle : ℕ
  pub caller_must_free : ℕ

-- What Windows holds for the process: its references to certificate contexts, the key handles that it
-- must free, how often a handle was freed that it did not own, and the keys whose PIN was forgotten.
pub record Windows : Type 0 where
  pub contexts : List ℕ
  pub owned_keys : List ℕ
  pub bad_frees : ℕ
  pub pin_resets : List ℕ

-- The procedures, as functions of their arguments; `free_context` gives the error of
-- `CertFreeCertificateContext`, `free_object` the result of NCryptFreeObject, which is 0 for a success, and
-- `size_address` is where nCryptSetPropertyString has its variable `dataSize`.
pub record CryptoApi : Type 0 where
  pub acquire_private_key : ℕ → Acquired
  pub sign_message : String → ℕ → List ℕ → Returned × List ℕ
  pub duplicate_context : ℕ → Returned
  pub free_context : ℕ → Option Error
  pub set_property : PropertyCall → Returned
  pub free_object : ℕ → ℕ
  pub size_address : ℕ
  pub parse_pkcs7 : List ℕ → Error ⊎ List (List ℕ)

-- How often a handle is in a list, and the list without one of them.
abbrev pub count : ℕ → List ℕ → ℕ
count h [] = 0
count h (x ∷ xs) = if x == h then suc (count h xs) else count h xs

abbrev pub without : ℕ → List ℕ → List ℕ
without h [] = []
without h (x ∷ xs) = if x == h then xs else x ∷ without h xs

-- `x509.Certificate`, as far as the code looks at it; `pub_key` is what `ssh.NewPublicKey` makes of its
-- public key: the key's type and wire form, or an error.
pub record X509 : Type 0 where
  pub serial_number : String
  pub common_name : String
  pub usages : List ExtKeyUsage
  pub unknown_usages : List Oid
  pub pub_key : Error ⊎ (String × List ℕ)
  pub curve_bits : ℕ

-- `Certificate`
pub record Certificate : Type 0 where
  pub cert_context : ℕ
  pub x509 : X509

-- `(*Certificate).Free()`
pub free : CryptoApi → Certificate → Windows → Option Error × Windows
free api cert w = (
  api.free_context cert.cert_context,
  if count cert.cert_context w.contexts == 0
      then record w { bad_frees = suc w.bad_frees }
      else record w { contexts = without cert.cert_context w.contexts },
)

-- `certDuplicateCertificateContext`: an error only by the last error.
pub cert_duplicate_certificate_context : CryptoApi → ℕ → Exec Windows ℕ
cert_duplicate_certificate_context api context w =
    let r = api.duplicate_context context in
    if r.last_error == 0
    then (ok r.value, record w { contexts = r.value ∷ w.contexts })
    else (err (external r.last_error), w)

-- `(*Certificate).Copy()`
pub copy : CryptoApi → Certificate → Exec Windows Certificate
unfolding cert_duplicate_certificate_context
copy api cert = do
  context ← cert_duplicate_certificate_context api cert.cert_context
  pure (record { cert_context = context; x509 = cert.x509 })

-- A certificate of the store "My" as the enumeration gives it: its context, its key specification
-- property (0 if it has no private key), and what `x509.ParseCertificate` makes of it.
pub record StoreEntry : Type 0 where
  pub context : ℕ
  pub key_spec : ℕ
  pub parsed : Option X509

-- How the enumeration ends: by CRYPT_E_NOT_FOUND or a nil context, or by another error.
pub data StoreEnd : Type 0 where
  no_more : StoreEnd
  failed : Error → StoreEnd

end_of : StoreEnd → List Certificate → Result (List Certificate)
end_of no_more certs = ok certs
end_of (failed e) certs = err e

-- A certificate whose context cannot be duplicated is passed over.
keep_cert : X509 → List Certificate → Result ℕ → List Certificate
keep_cert x certs (ok context) = certs ++ record { cert_context = context; x509 = x } ∷ []
keep_cert x certs (err e) = certs
keep_cert x certs panic = certs

take_cert : CryptoApi → ℕ → Option X509 → List Certificate → Windows → List Certificate × Windows
unfolding keep_cert cert_duplicate_certificate_context
take_cert api context none certs w = (certs, w)
take_cert api context (some x) certs w =
    let (r, w') = cert_duplicate_certificate_context api context w in (keep_cert x certs r, w')

-- One round of the loop.
visit : CryptoApi → StoreEntry → List Certificate → Windows → List Certificate × Windows
unfolding take_cert
visit api entry certs w =
    if entry.key_spec == 0 then (certs, w) else take_cert api entry.context entry.parsed certs w

load_from :
    CryptoApi → List StoreEntry → StoreEnd → List Certificate → Exec Windows (List Certificate)
unfolding end_of
load_from api [] end certs w = (end_of end certs, w)
load_from api (entry ∷ entries) end certs w =
    let (certs', w') = visit api entry certs w in load_from api entries end certs' w'

-- What `syscall.CertOpenStore` gives, and behind it the store's contents.
pub record UserStore : Type 0 where
  pub open_error : Option Error
  pub entries : List StoreEntry
  pub end : StoreEnd

opened : CryptoApi → UserStore → Option Error → Exec Windows (List Certificate)
unfolding load_from
opened api store none w = load_from api store.entries store.end [] w
opened api store (some e) w = (err e, w)

-- `LoadUserCerts`
pub load_user_certs : CryptoApi → UserStore → Exec Windows (List Certificate)
unfolding opened
load_user_certs api store = opened api store store.open_error

-- `cryptAcquireCertificatePrivateKey`: the handle, and whether the caller owns it.
crypt_acquire_certificate_private_key : CryptoApi → ℕ → Exec Windows (ℕ × Bool)
crypt_acquire_certificate_private_key api context w =
    let a = api.acquire_private_key context in
    let owned = not (a.caller_must_free == 0) in
    let w' = if owned then record w { owned_keys = a.handle ∷ w.owned_keys } else w in
    if a.returned.value == 0
    then (err (errorf "r0 was 0" []), w)
    else if not (a.returned.last_error == 0)
    then (err (external a.returned.last_error), w')
    else (ok (a.handle, owned), w')

-- `cryptSignMessage`
crypt_sign_message : CryptoApi → String → ℕ → List ℕ → Result (List ℕ)
crypt_sign_message api alg context [] = err (errorf "cryptSignMessage: empty data" [])
crypt_sign_message api alg context (b ∷ bs) =
    let (r, signature) = api.sign_message alg context (b ∷ bs) in
    if not (r.last_error == 0)
    then err (external r.last_error)
    else if r.value == 0
    then err (errorf "failed to sign" [])
    else ok signature

parsed_by : Error ⊎ List (List ℕ) → Result (List (List ℕ))
parsed_by (inl e) = err e
parsed_by (inr digests) = ok digests

parse_signed : CryptoApi → Result (List ℕ) → Result (List (List ℕ))
unfolding parsed_by
parse_signed api (ok signature) = parsed_by (api.parse_pkcs7 signature)
parse_signed api (err e) = err e
parse_signed api panic = panic

-- `nCryptFreeObject`, whose error is only printed.
n_crypt_free_object : CryptoApi → ℕ → Windows → Windows
n_crypt_free_object api handle w =
    if not (api.free_object handle == 0)
    then w
    else if count handle w.owned_keys == 0
    then record w { bad_frees = suc w.bad_frees }
    else record w { owned_keys = without handle w.owned_keys }

abbrev pub note_reset : ℕ → Option Error → Windows → Windows
note_reset handle (some e) w = w
note_reset handle none w = record w { pin_resets = w.pin_resets ++ handle ∷ [] }

-- The error of `nCryptSetPropertyString` for NCRYPT_PIN_PROPERTY, an empty text and no flags.
abbrev pub reset_error : CryptoApi → ℕ → Option Error
reset_error api handle =
    n_crypt_set_property_string api.set_property api.size_address handle "SmartCardPin" "" 0

-- The deferred function: the PIN, the error of whose reset is only printed, and the release.
forget_pin : CryptoApi → ℕ → Bool → Windows → Windows
unfolding n_crypt_free_object
forget_pin api handle owned w =
    let w' = note_reset handle (reset_error api handle) w in
    if owned then n_crypt_free_object api handle w' else w'

after_acquire :
    CryptoApi → Result (List (List ℕ)) → Result (ℕ × Bool) → Exec Windows (List (List ℕ))
unfolding forget_pin
after_acquire api signed (ok (handle, owned)) w =
    (signed, if handle == 0 then w else forget_pin api handle owned w)
after_acquire api signed (err e) w = (err e, w)
after_acquire api signed panic w = (panic, w)

-- `Sign`, by the flag `disablePINCache`: the digests of the signers of the PKCS #7 message.
unfoldable pub sign :
    CryptoApi → Bool → String → Certificate → List ℕ → Exec Windows (List (List ℕ))
unfolding crypt_acquire_certificate_private_key crypt_sign_message parse_signed after_acquire
sign api disable_pin_cache alg cert bytes w =
    let signed = parse_signed api (crypt_sign_message api alg cert.cert_context bytes) in
    if disable_pin_cache
    then (let (r, w') = crypt_acquire_certificate_private_key api cert.cert_context w in
        after_acquire api signed r w')
    else (signed, w)
