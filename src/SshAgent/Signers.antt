-- ===== src/SshAgent/Signers.antt =====
-- sshagent/rsa.go and sshagent/ecdsa.go: SSH signatures by the Windows Crypto API. ASN.1 decoding and
-- the wire form of an (r, s) pair are parameters.
pub mod Algorithms
mod Tests
use text.Mathlib.Text.{◌==◌ as str_eq}
use keybridge.Base.{
  ℕ, String, List, [], ◌∷◌, Bool, Option, none, some, ◌⊎◌, inl, inr, ◌||◌, leb, if◌then◌else◌,
}
use keybridge.Base.Outcome.{Error, errorf, Result, ok, err, panic, Exec, ◌>>=◌, pure, raise}
use keybridge.SshAgent.Agent.{Signature}
use keybridge.Capi
use keybridge.Capi.{
  CryptoApi, Windows, Certificate, alg_rsa_sha1rsa, alg_rsa_sha256rsa, alg_rsa_sha512rsa,
  alg_ecdsa_sha256, alg_ecdsa_sha384, alg_ecdsa_sha512,
}

-- The constants of golang.org/x/crypto/ssh.
abbrev pub sig_algo_rsa : String
sig_algo_rsa = "ssh-rsa"

abbrev pub sig_algo_rsa_sha2256 : String
sig_algo_rsa_sha2256 = "rsa-sha2-256"

abbrev pub sig_algo_rsa_sha2512 : String
sig_algo_rsa_sha2512 = "rsa-sha2-512"

-- `ssh.Signer`; `sign_with_algorithm` is there for an `ssh.AlgorithmSigner` only.
pub record Signer : Type 0 where
  pub public_format : String
  pub public_blob : List ℕ
  pub sign : List ℕ → Exec Windows (Option Signature)
  pub sign_with_algorithm : Option (List ℕ → String → Exec Windows (Option Signature))

-- `encoding/asn1` and `ssh.Marshal` on an (r, s) pair.
pub record PairCodec : Type 0 where
  pub unmarshal : List ℕ → Error ⊎ (ℕ × ℕ)
  pub marshal : ℕ × ℕ → List ℕ

-- The `switch` of `SignWithAlgorithm`: the signature's format and the algorithm of the Crypto API.
unfoldable pub rsa_algorithm : String → Result (String × String)
rsa_algorithm algorithm =
    if str_eq algorithm "" || str_eq algorithm sig_algo_rsa
    then ok (sig_algo_rsa, alg_rsa_sha1rsa)
    else if str_eq algorithm sig_algo_rsa_sha2256
    then ok (algorithm, alg_rsa_sha256rsa)
    else if str_eq algorithm sig_algo_rsa_sha2512
    then ok (algorithm, alg_rsa_sha512rsa)
    else err (errorf "ssh: unsupported signature algorithm %s" [])

-- `if err != nil || len(p7.Signers) < 1 { return nil, err }`: without a signer, nil and no error.
rsa_signature : String → List (List ℕ) → Option Signature
rsa_signature format [] = none
rsa_signature format (digest ∷ digests) = some (record { format = format; blob = digest })

ecdsa_pair : PairCodec → String → Error ⊎ (ℕ × ℕ) → Result (Option Signature)
ecdsa_pair codec format (inl e) = err e
ecdsa_pair codec format (inr rs) = ok (some (record { format = format; blob = codec.marshal rs }))

ecdsa_signature : PairCodec → String → List (List ℕ) → Result (Option Signature)
unfolding ecdsa_pair
ecdsa_signature codec format [] = ok none
ecdsa_signature codec format (digest ∷ digests) = ecdsa_pair codec format (codec.unmarshal digest)

-- `ecAlg`, by the bits of the curve
unfoldable pub ec_alg : ℕ → String
ec_alg bits =
    if leb bits 256
    then alg_ecdsa_sha256
    else if leb bits 384
    then alg_ecdsa_sha384
    else alg_ecdsa_sha512

module _ (api : CryptoApi) (disable_pin_cache : Bool) where
  rsa_by : Certificate → List ℕ → Result (String × String) → Exec Windows (Option Signature)
  unfolding rsa_signature
  rsa_by cert bytes (ok (format, capi_alg)) = do
    digests ← Capi.sign api disable_pin_cache capi_alg cert bytes
    pure (rsa_signature format digests)
  rsa_by cert bytes (err e) = raise e
  rsa_by cert bytes panic = λ w. (panic, w)

  -- `(*rsaSigner).SignWithAlgorithm`
  unfoldable pub rsa_sign_with_algorithm :
      Certificate → List ℕ → String → Exec Windows (Option Signature)
  unfolding rsa_by
  rsa_sign_with_algorithm cert bytes algorithm = rsa_by cert bytes (rsa_algorithm algorithm)

  -- `&rsaSigner{pub: pub, cert: cert}`
  abbrev pub rsa_signer : String → List ℕ → Certificate → Signer
  rsa_signer pub_type pub_blob cert = record {
    public_format = pub_type;
    public_blob = pub_blob;
    sign = λ bytes. rsa_sign_with_algorithm cert bytes "";
    sign_with_algorithm = some (rsa_sign_with_algorithm cert);
  }

  -- `(*ecdsaSigner).Sign`
  unfoldable pub ecdsa_sign :
      PairCodec → String → Certificate → List ℕ → Exec Windows (Option Signature)
  unfolding ec_alg ecdsa_signature
  ecdsa_sign codec pub_type cert bytes = do
    digests ← Capi.sign api disable_pin_cache (ec_alg cert.x509.curve_bits) cert bytes
    (λ w. (ecdsa_signature codec pub_type digests, w))

  -- `&ecdsaSigner{pub: pub, cert: cert}`
  abbrev pub ecdsa_signer : PairCodec → String → List ℕ → Certificate → Signer
  ecdsa_signer codec pub_type pub_blob cert = record {
    public_format = pub_type;
    public_blob = pub_blob;
    sign = ecdsa_sign codec pub_type cert;
    sign_with_algorithm = none;
  }
