-- ===== src/SshAgent/KeyRing/Notices.antt =====
-- What the keyring agent returns, and which notifications it shows.
use keybridge.Base.{
  ℕ, String, ◌≡◌, refl, ◌≢◌, List, [], ◌∷◌, ◌++◌, Option, none, some, All, arith, bytes_equal,
  bytes_equal→eq, bytes_equal_refl, Bool-cases, inl, inr,
}
use keybridge.Base.Outcome.{Error, Result, ok, err, panic}
use keybridge.SshAgent.Agent.{Key, Signature, AddedKey}
use keybridge.SshAgent.KeyRing.{
  Keyring, comment_in, on_success, sign_with_flags, add, remove, remove_all,
}
use keybridge.Utils.Desktop.{Desktop, notify, quote}

module _ {S : Type 0} (ag : Keyring S) (base64 : List ℕ → String) where
  -- The comment of the first key with the wanted wire form.
  comment_in_lem :
      (before behind : List Key) (k : Key)
      → All (λ j. j.blob ≢ k.blob) before
      → comment_in ag base64 (before ++ k ∷ behind) k.blob ≡ k.comment
  unfolding comment_in
  comment_in_lem [] behind k others = rw (bytes_equal_refl k.blob)
  comment_in_lem (j ∷ before) behind k others = elim (Bool-cases (bytes_equal j.blob k.blob)) [
    | inl same ↦ absurd (others.0 (bytes_equal→eq j.blob k.blob same))
    | inr differs ↦ rw differs (comment_in_lem before behind k others.1)
  ]

  -- If the keyring lists its keys and signs, the signature is announced once, with the comment that the
  -- key had when the request came in: that of the first key with this wire form.
  pub sign_with_flags_notice :
      (before behind : List Key) (k : Key) (bytes : List ℕ) (flags : ℕ) (s t u : S) (d : Desktop)
      (signature : Option Signature)
      → ag.list s ≡ (ok (before ++ k ∷ behind), t)
      → All (λ j. j.blob ≢ k.blob) before
      → ag.sign_with_flags k.blob bytes flags t ≡ (ok signature, u)
      → sign_with_flags ag base64 k.blob bytes flags (s, d) ≡ (
        ok signature,
        (
          u,
          notify "Authenticated (Keyring)"
              (quote "Authentication Success by Key <" k.comment ">")
              d,
        ),
      )
  unfolding sign_with_flags
  sign_with_flags_notice before behind k bytes flags s t u d signature listed others signs =
      rw (listed, comment_in_lem before behind k others) (rw signs)

  -- A key that is removed is announced with the comment that it had before it was removed.
  remove_notice :
      (before behind : List Key) (k : Key) (s t u : S) (d : Desktop)
      → ag.list s ≡ (ok (before ++ k ∷ behind), t)
      → All (λ j. j.blob ≢ k.blob) before
      → ag.remove k.blob t ≡ (ok tt, u)
      → remove ag base64 k.blob (s, d) ≡ (
        ok tt,
        (u, notify "Key Removed" (quote "Key <" k.comment "> has been removed from keyring") d),
      )
  unfolding remove
  remove_notice before behind k s t u d listed others removes =
      rw (listed, comment_in_lem before behind k others) (rw removes)

  -- The requests that show something when they succeed.
  pub data Request : Type 0 where
    signing : List ℕ → List ℕ → ℕ → Request
    adding : AddedKey → Request
    removing : List ℕ → Request
    removing_all : Request

  abbrev error_of : {A : Type 0} → Result A × (S × Desktop) → Option Error × Desktop
  error_of (ok a, (s, d)) = (none, d)
  error_of (err e, (s, d)) = (some e, d)
  error_of (panic, (s, d)) = (none, d)

  -- The error of a request, and the desktop after it.
  abbrev pub perform : Request → S × Desktop → Option Error × Desktop
  perform (signing key bytes flags) sd = error_of (sign_with_flags ag base64 key bytes flags sd)
  perform (adding key) sd = error_of (add ag base64 key sd)
  perform (removing key) sd = error_of (remove ag base64 key sd)
  perform removing_all sd = error_of (remove_all ag base64 sd)

  -- A request that fails, to sign, to add, to remove or to remove all, shows nothing.
  pub failures_silent :
      (request : Request) (s : S) (d : Desktop) (e : Error)
      → (perform request (s, d)).0 ≡ some e
      → (perform request (s, d)).1 ≡ d
  unfolding sign_with_flags add remove remove_all
  failures_silent (signing key bytes flags) s d e h = ground arith
  failures_silent (adding key) s d e h = ground arith
  failures_silent (removing key) s d e h = ground arith
  failures_silent removing_all s d e h = ground arith

  -- How a request to sign ends, by the keys that the keyring lists and by what it then says.
  abbrev pub noticed :
      List Key
      → List ℕ
      → Desktop
      → Result (Option Signature) × S
      → Result (Option Signature) × (S × Desktop)
  noticed keys key d (ok signature, u) = (
    ok signature,
    (
      u,
      notify "Authenticated (Keyring)"
          (quote "Authentication Success by Key <" (comment_in ag base64 keys key) ">") d,
    ),
  )
  noticed keys key d (err e, u) = (err e, (u, d))
  noticed keys key d (panic, u) = (panic, (u, d))

  on_success-noticed :
      (keys : List Key) (key : List ℕ) (d : Desktop) (asked : Result (Option Signature) × S)
      → on_success ag base64 "Authenticated (Keyring)"
          (quote "Authentication Success by Key <" (comment_in ag base64 keys key) ">")
          (λ sd. (asked.0, (asked.1, sd.1)))
          (asked.1, d)
        ≡ noticed keys key d asked
  unfolding on_success
  on_success-noticed keys key d (ok signature, u) = refl
  on_success-noticed keys key d (err e, u) = refl
  on_success-noticed keys key d (panic, u) = refl

  pub sign_with_flags-noticed :
      (keys : List Key) (key bytes : List ℕ) (flags : ℕ) (s t : S) (d : Desktop)
      → ag.list s ≡ (ok keys, t)
      → sign_with_flags ag base64 key bytes flags (s, d)
        ≡ noticed keys key d (ag.sign_with_flags key bytes flags t)
  unfolding sign_with_flags
  sign_with_flags-noticed keys key bytes flags s t d listed =
      rw listed (on_success-noticed keys key d (ag.sign_with_flags key bytes flags t))
