-- ===== src/SshAgent/CapiAgent.antt =====
-- sshagent/capi_agent.go and sshagent/certificate.go: the agent over the certificates of the Windows
-- store. The mutex makes each method one step.
pub mod Signing
pub mod Loading
pub mod Handles
pub mod Signatures
pub mod Requests
mod Tests
use Prim.Native.String.{◌++◌ as str_append}
use text.Mathlib.Text.{◌==◌ as str_eq}
use keybridge.Base.{
  ℕ, String, List, [], ◌∷◌, ◌++◌, map, Bool, not, Option, none, some, ◌⊎◌, inl, inr, ◌||◌,
  if◌then◌else◌,
}
use keybridge.Base.Outcome.{Error, errorf, Result, ok, err, panic, Exec, ◌>>=◌, ◌>>◌, pure}
use keybridge.SshAgent.Eku.{filter_certificate_eku}
use keybridge.SshAgent.Agent.{Key}
use keybridge.SshAgent.Signers.{Signer, PairCodec, rsa_signer, ecdsa_signer}
use keybridge.Capi
use keybridge.Capi.{CryptoApi, Windows, Certificate, UserStore, free, copy, load_user_certs}
use keybridge.Utils.Desktop.{Desktop}

-- `ssh.Certificate`
pub record SshCertificate : Type 0 where
  pub key_id : String
  pub blob : List ℕ

-- What `ssh.ParseAuthorizedKey` gives.
pub data ParsedKey : Type 0 where
  certificate : SshCertificate → ParsedKey
  plain : ParsedKey

-- What the agent uses of other code: Windows, `filepath.Join` and the files of the home directory,
-- `ssh.ParseAuthorizedKey`, `ssh.NewCertSigner`, and for the check of the smart card service the
-- environment variable, the service's status and the user's answer.
pub record Outside : Type 0 where
  pub api : CryptoApi
  pub disable_pin_cache : Bool
  pub store : UserStore
  pub codec : PairCodec
  pub join : String → String → String
  pub user_home_dir : Error ⊎ String
  pub read_file : String → Error ⊎ List ℕ
  pub parse_authorized_key : List ℕ → Error ⊎ ParsedKey
  pub new_cert_signer : SshCertificate → Signer → Error ⊎ Signer
  pub check_service : Bool
  pub service_running : Error ⊎ Bool
  pub answer : ℕ

pub record SshKey : Type 0 where
  pub cert : Certificate
  pub signer : Signer
  pub comment : String

-- `CAPIAgent` with what its methods change; `none` is a nil slice of keys.
pub record CapiAgent : Type 0 where
  pub keys : Option (List SshKey)
  pub windows : Windows
  pub desktop : Desktop
  pub service_starts : ℕ

-- `close` on a list of keys: the error is that of the last `Free`.
pub close_keys : CryptoApi → List SshKey → Option Error → Windows → Option Error × Windows
close_keys api [] e w = (e, w)
close_keys api (k ∷ ks) e w = let (e', w') = free api k.cert w in close_keys api ks e' w'

abbrev pub keys_of : Option (List SshKey) → List SshKey
keys_of none = []
keys_of (some ks) = ks

-- `Close`, and `close` without the mutex
pub close : Outside → CapiAgent → Option Error × CapiAgent
unfolding close_keys
close o s =
    let (e, w) = close_keys o.api (keys_of s.keys) none s.windows in
    (e, record s { keys = none; windows = w })

as_certificate : ParsedKey → Error ⊎ SshCertificate
as_certificate (certificate c) = inr c
as_certificate plain = inl (errorf "invalid openssh certificate" [])

-- A step that follows one that may fail.
abbrev pub and_then : {A B : Type 0} → Error ⊎ A → (A → Error ⊎ B) → Error ⊎ B
and_then (inl e) f = inl e
and_then (inr a) f = f a

-- `loadCertFile`
load_cert_file : Outside → String → Error ⊎ SshCertificate
unfolding as_certificate
load_cert_file o filename = and_then o.user_home_dir λ home.
    and_then (o.read_file (o.join home filename))
      λ bytes. and_then (o.parse_authorized_key bytes) as_certificate

or_else : {A : Type 0} → Error ⊎ A → Error ⊎ A → Error ⊎ A
or_else (inl e) b = b
or_else (inr a) b = inr a

-- The certificate file by the serial number, or else by the comment; then its signer.
ssh_certificate : Outside → SshKey → Error ⊎ (SshCertificate × Signer)
unfolding load_cert_file or_else
ssh_certificate o key =
    and_then
      (or_else (load_cert_file o (str_append key.cert.x509.serial_number "-cert.pub"))
        (load_cert_file o (str_append key.comment "-cert.pub")))
      λ c. and_then (o.new_cert_signer c key.signer) λ signer. inr (c, signer)

copied : SshKey → Error ⊎ (SshCertificate × Signer) → CryptoApi → Exec Windows SshKey
copied key (inl e) api w = (err e, w)
copied key (inr (c, signer)) api w =
    (do
      cert ← copy api key.cert
      pure (record { cert = cert; signer = signer; comment = c.key_id }))
      w

-- `loadSSHCertificate`
load_ssh_certificate : Outside → SshKey → Exec Windows SshKey
unfolding copied ssh_certificate
load_ssh_certificate o key = copied key (ssh_certificate o key) o.api

-- `append(s.keys, key)`, and behind it the key with its certificate if there is one.
with_certificate : List SshKey → Result SshKey → List SshKey
with_certificate keys (ok key) = keys ++ key ∷ []
with_certificate keys (err e) = keys
with_certificate keys panic = keys

add_key : Outside → SshKey → List SshKey → Windows → List SshKey × Windows
unfolding with_certificate
add_key o key keys w =
    let (r, w') = load_ssh_certificate o key w in (with_certificate (keys ++ key ∷ []) r, w')

drop_cert : Outside → Certificate → List SshKey → Windows → List SshKey × Windows
drop_cert o cert keys w = (keys, (free o.api cert w).1)

new_key : Certificate → Signer → SshKey
new_key cert signer = record { cert = cert; signer = signer; comment = cert.x509.common_name }

-- The rest of the loop's body, from the public key on.
take_public :
    Outside
    → Certificate
    → Error ⊎ (String × List ℕ)
    → List SshKey
    → Windows
    → List SshKey × Windows
unfolding add_key drop_cert new_key
take_public o cert (inl e) keys w = drop_cert o cert keys w
take_public o cert (inr (key_type, blob)) keys w =
    if str_eq key_type "ssh-rsa"
    then add_key o (new_key cert (rsa_signer o.api o.disable_pin_cache key_type blob cert)) keys w
    else if str_eq key_type "ecdsa-sha2-nistp256"
        || (str_eq key_type "ecdsa-sha2-nistp384" || str_eq key_type "ecdsa-sha2-nistp521")
    then add_key o
        (new_key cert (ecdsa_signer o.api o.disable_pin_cache o.codec key_type blob cert)) keys w
    else drop_cert o cert keys w

-- One round of the loop of `loadCerts`.
load_cert : Outside → Certificate → List SshKey → Windows → List SshKey × Windows
unfolding take_public drop_cert
load_cert o cert keys w =
    if not (filter_certificate_eku cert.x509.usages cert.x509.unknown_usages)
    then drop_cert o cert keys w
    else take_public o cert cert.x509.pub_key keys w

pub load_each : Outside → List Certificate → List SshKey → Windows → List SshKey × Windows
load_each o [] keys w = (keys, w)
load_each o (cert ∷ certs) keys w =
    let (keys', w') = load_cert o cert keys w in load_each o certs keys' w'

after_load : Outside → Result (List Certificate) → Windows → Exec CapiAgent (Unit {0})
unfolding load_each
after_load o (ok certs) w s =
    let (keys, w') = load_each o certs [] w in (ok tt, record s { keys = some keys; windows = w' })
after_load o (err e) w s = (err e, record s { windows = w })
after_load o panic w s = (panic, record s { windows = w })

-- `loadCerts`
pub load_certs : Outside → Exec CapiAgent (Unit {0})
unfolding after_load
load_certs o s = let (r, w) = load_user_certs o.api o.store s.windows in after_load o r w s

list_key : SshKey → Key
list_key k = record {
  format = k.signer.public_format;
  blob = k.signer.public_blob;
  comment = k.comment;
}

list_keys : Exec CapiAgent (List Key)
unfolding list_key
list_keys s = (ok (map list_key (keys_of s.keys)), s)

close_loaded : Outside → Option (List SshKey) → CapiAgent → CapiAgent
unfolding close
close_loaded o none s = s
close_loaded o (some ks) s = (close o s).1

-- `List`
pub list : Outside → Exec CapiAgent (List Key)
unfolding list_keys
list o s = (do load_certs o; list_keys) (close_loaded o s.keys s)
