-- ===== src/Startup/Requests.antt =====
-- How the process answers a request to sign: the keyring, the certificates and what the user is shown.
use keybridge.Base.{ℕ, String, ◌≡◌, refl, ap, ◌∙◌, List, Option, some, false}
use keybridge.Base.Outcome.{Error, Result, ok, err, panic}
use keybridge.Capi.{Windows}
use keybridge.SshAgent.Agent.{Key, Signature}
use keybridge.SshAgent.KeyRing.{Keyring, comment_in}
use keybridge.SshAgent.CapiAgent.Signing
use keybridge.SshAgent.CapiAgent.{Outside, SshKey, CapiAgent}
use keybridge.SshAgent.CapiAgent.Signing.{ask_service}
use keybridge.SshAgent.CapiAgent.Signatures.{IsFirst, sign_with_flags_default}
use keybridge.SshAgent.HyperV.{Parent}
use keybridge.SshAgent.Wrapped.Order.{or_refusal, by_second, sign_with_flags-two}
use keybridge.SshAgent.KeyRing.Notices.{noticed, sign_with_flags-noticed}
use keybridge.SshAgent.Wrapped.{sign_by, new_wrapped_agent}
use keybridge.Startup.{
  Process, on_keyring, on_capi, key_ring_agent, capi_agent, wrapped, choose_agent,
}
use keybridge.Utils.Desktop.{notify, quote}

module _ {S : Type 0} (ag : Keyring S) (base64 : List ℕ → String) (o : Outside) where
  -- By what the keyring says to a request, with the keys that it lists before.
  abbrev pub answer :
      Process S
      → List Key
      → List ℕ
      → List ℕ
      → ℕ
      → Result (Option Signature) × S
      → Result (Option Signature) × Process S
  answer s keys key bytes flags (ok signature, u) = (
    ok signature,
    record s {
      keyring = u;
      capi = record (s.capi) {
        desktop =
            notify "Authenticated (Keyring)"
              (quote "Authentication Success by Key <" (comment_in ag base64 keys key) ">")
              s.capi.desktop;
      };
    },
  )
  answer s keys key bytes flags (err e, u) =
      let (r, capi) = Signing.sign_with_flags o key bytes flags s.capi in
      (or_refusal e r, record s { keyring = u; capi = capi })
  answer s keys key bytes flags (panic, u) = (panic, record s { keyring = u })

  answer-noticed :
      (s : Process S) (keys : List Key) (key bytes : List ℕ) (flags : ℕ)
      (asked : Result (Option Signature) × S)
      → by_second
          (on_capi (Signing.sign_with_flags o key bytes flags))
          (on_keyring (λ sd. noticed ag base64 keys key s.capi.desktop asked) s)
        ≡ answer s keys key bytes flags asked
  answer-noticed s keys key bytes flags (ok signature, u) = refl
  answer-noticed s keys key bytes flags (err e, u) = refl
  answer-noticed s keys key bytes flags (panic, u) = refl

  asked_first :
      (s : Process S) (t : S) (keys : List Key) (key bytes : List ℕ) (flags : ℕ)
      → ag.list s.keyring ≡ (ok keys, t)
      → sign_by (key_ring_agent ag base64) key bytes flags s
        ≡ on_keyring
            (λ sd. noticed ag base64 keys key s.capi.desktop (ag.sign_with_flags key bytes flags t))
            s
  unfolding sign_by key_ring_agent
  asked_first s t keys key bytes flags listed =
      ap (λ asked. on_keyring (λ sd. asked) s)
        (sign_with_flags-noticed ag base64 keys key bytes flags s.keyring t s.capi.desktop listed)

  asked_second :
      (key bytes : List ℕ) (flags : ℕ)
      → sign_by (capi_agent {S = S} o) key bytes flags
        ≡ on_capi (Signing.sign_with_flags o key bytes flags)
  unfolding sign_by capi_agent
  asked_second key bytes flags = refl

  -- For any key and flags, when main.go has chosen the wrapped agent, that is when the host does not answer
  -- over Hyper-V and -disable-capi is not given, and the keyring lists its keys: a request is answered by
  -- the keyring if it signs, and announced with the comment it lists for the key; if it refuses, by the
  -- certificate agent, on the desktop as it was; if both refuse, by the keyring's error. A panic of the
  -- keyring is passed on, and the certificate agent is not asked.
  pub request-answer :
      (p : Parent) (s : Process S) (keys : List Key) (key bytes : List ℕ) (flags : ℕ) (t : S)
      → ag.list s.keyring ≡ (ok keys, t)
      → sign_by (choose_agent false false ag base64 o p) key bytes flags s
        ≡ answer s keys key bytes flags (ag.sign_with_flags key bytes flags t)
  unfolding choose_agent wrapped sign_by new_wrapped_agent
  request-answer p s keys key bytes flags t listed =
      sign_with_flags-two (key_ring_agent ag base64) (capi_agent o) key bytes flags s
      ∙ rw (asked_second, asked_first s t keys key bytes flags listed)
          (answer-noticed s keys key bytes flags (ag.sign_with_flags key bytes flags t))

  -- With the certificates loaded, a request without flags for a key that the keyring does not sign for, and
  -- that a certificate has, is signed by the first certificate key with this wire form. The user is shown
  -- one notification, with the comment of the certificate key and none of the keyring; at most the smart
  -- card service is started besides.
  pub certificate_signs :
      (p : Parent) (s : Process S) (keys : List Key) (k : SshKey) (ks before behind : List SshKey)
      (bytes : List ℕ) (t u : S) (e : Error) (signature : Option Signature) (w : Windows)
      → ag.list s.keyring ≡ (ok keys, t)
      → ag.sign_with_flags k.signer.public_blob bytes 0 t ≡ (err e, u)
      → s.capi.keys ≡ some ks
      → IsFirst k before behind ks
      → k.signer.sign bytes s.capi.windows ≡ (ok signature, w)
      → sign_by (choose_agent false false ag base64 o p) k.signer.public_blob bytes 0 s ≡ (
        ok signature,
        record s {
          keyring = u;
          capi = record (ask_service o s.capi) {
            windows = w;
            desktop =
                notify "Authenticated"
                  (quote "Authentication Success by Certificate <" k.comment ">")
                  s.capi.desktop;
          };
        },
      )
  certificate_signs p s keys k ks before behind bytes t u e signature w listed refused loaded first
        signs =
      request-answer p s keys k.signer.public_blob bytes 0 t listed
      ∙ ap (answer s keys k.signer.public_blob bytes 0) refused
      ∙ ap
          (λ (r : Result (Option Signature) × CapiAgent).
            (or_refusal e r.0, record s { keyring = u; capi = r.1 }))
          (sign_with_flags_default o s.capi k ks before behind bytes signature w loaded first signs)
