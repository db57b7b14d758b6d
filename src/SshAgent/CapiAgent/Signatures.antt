-- ===== src/SshAgent/CapiAgent/Signatures.antt =====
-- Which key signs, and what is announced.
use keybridge.Base.{
  ℕ, ◌≡◌, ◌≢◌, refl, ap, sym, subst, ◌∙◌, List, [], ◌∷◌, ◌++◌, Option, none, some, All, arith,
  if◌then◌else◌, inl, inr, Bool-cases, bytes_equal, bytes_equal→eq, bytes_equal_refl, String, ◌==◌,
}
use keybridge.Base.Outcome.{errorf, ok, err, Exec, ◌>>=◌}
use keybridge.Capi
use keybridge.Capi.{Windows, Certificate, alg_rsa_sha1rsa}
use keybridge.SshAgent.Agent.{Signature}
use keybridge.SshAgent.Signers.{rsa_signer, rsa_algorithm}
use keybridge.SshAgent.Signers.Algorithms.{rsa_sign_without_signer}
use keybridge.SshAgent.CapiAgent.{Outside, SshKey, CapiAgent, keys_of}
use keybridge.SshAgent.CapiAgent.Signing.{
  announced, find, load_if_nil, ask_service, sign_found, sign_loaded, sign_with_flags,
}
use keybridge.Utils.Desktop.{notify, quote}

-- The first key of the list with this wire form.
pub record IsFirst (k : SshKey) (before behind ks : List SshKey) : Type 0 where
  pub split : ks ≡ before ++ k ∷ behind
  pub others : All (λ j. j.signer.public_blob ≢ k.signer.public_blob) before

find-first :
    (k : SshKey) (before behind : List SshKey)
    → All (λ j. j.signer.public_blob ≢ k.signer.public_blob) before
    → find (before ++ k ∷ behind) k.signer.public_blob ≡ some k
unfolding find
find-first k [] behind others = rw (bytes_equal_refl k.signer.public_blob)
find-first k (j ∷ before) behind others =
    elim (Bool-cases (bytes_equal j.signer.public_blob k.signer.public_blob)) [
      | inl same ↦ absurd (others.0 (bytes_equal→eq j.signer.public_blob k.signer.public_blob same))
      | inr differs ↦ rw differs (find-first k before behind others.1)
    ]

pub keys-ask_service : (o : Outside) (s : CapiAgent) → (ask_service o s).keys ≡ s.keys
unfolding ask_service
keys-ask_service o s = ground arith

-- With the keys loaded, the loop is a search.
sign_loaded-find :
    (o : Outside) (s : CapiAgent) (ks : List SshKey) (key bytes : List ℕ) (flags : ℕ)
    → s.keys ≡ some ks
    → (load_if_nil o s.keys >>= (λ _. sign_loaded key bytes flags)) s
      ≡ sign_found (find ks key) bytes flags s
unfolding sign_loaded load_if_nil
sign_loaded-find o s ks key bytes flags loaded =
    subst
      (λ (loaded_keys : Option (List SshKey)).
        (load_if_nil o loaded_keys >>= (λ _. sign_loaded key bytes flags)) s
        ≡ sign_found (find ks key) bytes flags s)
      (sym loaded)
      (ap (λ (l : Option (List SshKey)). sign_found (find (keys_of l) key) bytes flags s) loaded)

sign_with_flags-found :
    (o : Outside) (s : CapiAgent) (k : SshKey) (ks before behind : List SshKey) (bytes : List ℕ)
    (flags : ℕ)
    → s.keys ≡ some ks
    → IsFirst k before behind ks
    → sign_with_flags o k.signer.public_blob bytes flags s
      ≡ sign_found (some k) bytes flags (ask_service o s)
unfolding sign_with_flags
sign_with_flags-found o s k ks before behind bytes flags loaded first =
    sign_loaded-find o (ask_service o s) ks k.signer.public_blob bytes flags
      (keys-ask_service o s ∙ loaded)
    ∙ ap (λ (f : Option SshKey). sign_found f bytes flags (ask_service o s))
        (ap (λ (l : List SshKey). find l k.signer.public_blob) first.split
          ∙ find-first k before behind first.others)

-- The algorithm that the flags of a request ask of an RSA key.
abbrev pub algorithm_of : ℕ → Option String
algorithm_of flags =
    if flags == 2 then some "rsa-sha2-256" else if flags == 4 then some "rsa-sha2-512" else none

-- With the keys loaded, a request without flags is signed by the first key with the wanted wire form, by
-- its default algorithm, and a signature without an error is announced once, with that key's comment.
pub sign_with_flags_default :
    (o : Outside) (s : CapiAgent) (k : SshKey) (ks before behind : List SshKey) (bytes : List ℕ)
    (signature : Option Signature) (w : Windows)
    → s.keys ≡ some ks
    → IsFirst k before behind ks
    → k.signer.sign bytes s.windows ≡ (ok signature, w)
    → sign_with_flags o k.signer.public_blob bytes 0 s ≡ (
      ok signature,
      record (ask_service o s) {
        windows = w;
        desktop =
            notify "Authenticated"
              (quote "Authentication Success by Certificate <" k.comment ">")
              s.desktop;
      },
    )
unfolding sign_found ask_service
sign_with_flags_default o s k ks before behind bytes signature w loaded first signs =
    sign_with_flags-found o s k ks before behind bytes 0 loaded first ∙ ground (arith, signs)

-- With the keys loaded, a request with flags is signed by the first key with the wanted wire form, if its
-- signer offers a choice of algorithm: by "rsa-sha2-256" for the flags 2 and by "rsa-sha2-512" for the
-- flags 4, and the signature is announced if it has no error. Other flags than these and 0 are refused,
-- with nothing signed or announced.
pub sign_with_flags_chosen :
    (o : Outside) (s : CapiAgent) (k : SshKey) (ks before behind : List SshKey) (bytes : List ℕ)
    (by : List ℕ → String → Exec Windows (Option Signature)) (flags : ℕ)
    → s.keys ≡ some ks
    → IsFirst k before behind ks
    → k.signer.sign_with_algorithm ≡ some by
    → flags ≢ 0
    → sign_with_flags o k.signer.public_blob bytes flags s ≡ elim (algorithm_of flags) [
      | some algorithm ↦
          let (r, w) = by bytes algorithm s.windows in
          (r, record (ask_service o s) { windows = w; desktop = announced k.comment r s.desktop })
      | none ↦ (err (errorf "agent: unsupported signature flags: %d" (flags ∷ [])), ask_service o s)
    ]
unfolding sign_found ask_service
sign_with_flags_chosen o s k ks before behind bytes by flags loaded first offers nonzero =
    sign_with_flags-found o s k ks before behind bytes flags loaded first ∙ ground (arith, offers)

find-none :
    (ks : List SshKey) (key : List ℕ)
    → All (λ j. j.signer.public_blob ≢ key) ks
    → find ks key ≡ none
unfolding find
find-none [] key others = refl
find-none (j ∷ ks) key others = elim (Bool-cases (bytes_equal j.signer.public_blob key)) [
  | inl same ↦ absurd (others.0 (bytes_equal→eq j.signer.public_blob key same))
  | inr differs ↦ rw differs (find-none ks key others.1)
]

-- A request for a key that none of the loaded keys matches is answered "not found", and at most the
-- smart card service is started.
pub sign_with_flags_unknown :
    (o : Outside) (s : CapiAgent) (ks : List SshKey) (key bytes : List ℕ) (flags : ℕ)
    → s.keys ≡ some ks
    → All (λ j. j.signer.public_blob ≢ key) ks
    → sign_with_flags o key bytes flags s ≡ (err (errorf "not found" []), ask_service o s)
unfolding sign_with_flags sign_found
sign_with_flags_unknown o s ks key bytes flags loaded others =
    sign_loaded-find o (ask_service o s) ks key bytes flags (keys-ask_service o s ∙ loaded)
    ∙ ap (λ (f : Option SshKey). sign_found f bytes flags (ask_service o s))
        (find-none ks key others)

-- With an RSA key as the first of those loaded: when the message that Windows signed for it, without the
-- request having flags, has no signer, the agent returns a nil signature without an error, and announces
-- an authentication all the same.
pub sign_with_flags_no_signer :
    (o : Outside) (s : CapiAgent) (key_type : String) (blob : List ℕ) (cert : Certificate)
    (comment : String) (rest : List SshKey) (bytes : List ℕ) (w : Windows)
    → let signer = rsa_signer o.api o.disable_pin_cache key_type blob cert in
      s.keys ≡ some (record { cert = cert; signer = signer; comment = comment } ∷ rest)
      → Capi.sign o.api o.disable_pin_cache alg_rsa_sha1rsa cert bytes s.windows ≡ (ok [], w)
      → sign_with_flags o blob bytes 0 s ≡ (
        ok none,
        record (ask_service o s) {
          windows = w;
          desktop =
              notify "Authenticated"
                (quote "Authentication Success by Certificate <" comment ">")
                s.desktop;
        },
      )
unfolding rsa_algorithm
sign_with_flags_no_signer o s key_type blob cert comment rest bytes w loaded unsigned =
    sign_with_flags_default o s _ _ [] rest bytes none w loaded
      (record { split = refl; others = tt })
      (rsa_sign_without_signer o.api o.disable_pin_cache cert bytes "" _ alg_rsa_sha1rsa s.windows w
        refl unsigned)
