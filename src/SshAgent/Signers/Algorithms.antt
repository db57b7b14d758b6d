-- ===== src/SshAgent/Signers/Algorithms.antt =====
-- Which algorithm of the Crypto API signs, and what the signature says of it.
use text.Mathlib.TextEquality.{eq_iff}
use keybridge.Base.{ℕ, String, ◌≡◌, ◌⊎◌, List, [], ◌∷◌, Bool, none, some, arith}
use keybridge.Base.Outcome.{Result, ok, err, panic, continue, pure}
use keybridge.SshAgent.Agent.{Signature}
use keybridge.SshAgent.Signers.{
  sig_algo_rsa_sha2256, sig_algo_rsa_sha2512, rsa_algorithm, rsa_by, rsa_signature,
  rsa_sign_with_algorithm,
}
use keybridge.Capi
use keybridge.Capi.{CryptoApi, Windows, Certificate}

-- The pairs of an SSH signature format and an algorithm of the Crypto API that belong together.
abbrev pub Matches : String → String → Type 0
Matches format capi_alg =
    ((format ≡ "ssh-rsa") × (capi_alg ≡ "1.2.840.113549.1.1.5"))
    ⊎ ((format ≡ "rsa-sha2-256") × (capi_alg ≡ "1.2.840.113549.1.1.11"))
    ⊎ ((format ≡ "rsa-sha2-512") × (capi_alg ≡ "1.2.840.113549.1.1.13"))

rsa_algorithm-Matches :
    (algorithm format capi_alg : String)
    → rsa_algorithm algorithm ≡ ok (format, capi_alg)
    → Matches format capi_alg
unfolding rsa_algorithm
rsa_algorithm-Matches algorithm format capi_alg h =
    ground (arith, eq_iff algorithm sig_algo_rsa_sha2256, eq_iff algorithm sig_algo_rsa_sha2512)

-- What a signature says of the digests that it was made of.
digests-ok :
    (format : String) (w' : Windows) (signature : Signature)
    (signed : Result (List (List ℕ)) × Windows)
    → continue signed.0 (λ digests. pure (rsa_signature format digests)) signed.1
      ≡ (ok (some signature), w')
    → (others : List (List ℕ)) × (signature.format ≡ format)
      × (signed ≡ (ok (signature.blob ∷ others), w'))
unfolding rsa_signature
digests-ok format w' signature (ok (d ∷ others), w'') h = (others, ground arith, ground arith)
digests-ok format w' signature (ok [], w'') h = cc
digests-ok format w' signature (err e, w'') h = cc
digests-ok format w' signature (panic, w'') h = cc

module _ (api : CryptoApi) (disable_pin_cache : Bool) where
  rsa_by-ok :
      (cert : Certificate) (bytes : List ℕ) (named : Result (String × String)) (w w' : Windows)
      (signature : Signature)
      → rsa_by api disable_pin_cache cert bytes named w ≡ (ok (some signature), w')
      → (capi_alg : String) × (others : List (List ℕ)) × (named ≡ ok (signature.format, capi_alg))
        × (Capi.sign api disable_pin_cache capi_alg cert bytes w
            ≡ (ok (signature.blob ∷ others), w'))
  unfolding rsa_by
  rsa_by-ok cert bytes (err e) w w' signature h = cc
  rsa_by-ok cert bytes panic w w' signature h = cc
  rsa_by-ok cert bytes (ok (format, capi_alg)) w w' signature h =
      let (others, named, signed) =
        digests-ok format w' signature (Capi.sign api disable_pin_cache capi_alg cert bytes w) h in
      (capi_alg, others, rw named, signed)

  -- An RSA signature is the first digest that the Crypto API returned for the algorithm that the
  -- signature's format names: SHA-1 for "ssh-rsa", SHA-256 and SHA-512 for the other two.
  pub rsa_sign_with_algorithm-Matches :
      (cert : Certificate) (bytes : List ℕ) (algorithm : String) (w w' : Windows)
      (signature : Signature)
      → rsa_sign_with_algorithm api disable_pin_cache cert bytes algorithm w
        ≡ (ok (some signature), w')
      → (capi_alg : String) × (others : List (List ℕ)) × Matches signature.format capi_alg
        × (Capi.sign api disable_pin_cache capi_alg cert bytes w
            ≡ (ok (signature.blob ∷ others), w'))
  unfolding rsa_sign_with_algorithm
  rsa_sign_with_algorithm-Matches cert bytes algorithm w w' signature h =
      let (capi_alg, others, named, signed) =
        rsa_by-ok cert bytes (rsa_algorithm algorithm) w w' signature h in
      (capi_alg, others, rsa_algorithm-Matches algorithm signature.format capi_alg named, signed)

  -- When the message that the Crypto API returned has no signer, the RSA signer returns a nil signature
  -- and no error, whichever of its algorithms was asked for.
  pub rsa_sign_without_signer :
      (cert : Certificate) (bytes : List ℕ) (algorithm format capi_alg : String) (w w' : Windows)
      → rsa_algorithm algorithm ≡ ok (format, capi_alg)
      → Capi.sign api disable_pin_cache capi_alg cert bytes w ≡ (ok [], w')
      → rsa_sign_with_algorithm api disable_pin_cache cert bytes algorithm w ≡ (ok none, w')
  unfolding rsa_sign_with_algorithm rsa_signature
  rsa_sign_without_signer cert bytes algorithm format capi_alg w w' named signed =
      rw (named, rsa_by) (rw signed)
