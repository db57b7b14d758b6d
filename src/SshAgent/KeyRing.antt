-- ===== src/SshAgent/KeyRing.antt =====
-- sshagent/keyring_agent.go: the keyring of golang.org/x/crypto/ssh/agent with notifications. The
-- keyring and the base64 encoding are parameters.
pub mod Notices
mod Tests
use keybridge.Base.{ℕ, String, List, [], ◌∷◌, Bool, true, false, Option, bytes_equal, if◌then◌else◌}
use keybridge.Base.Outcome.{Result, ok, err, panic, Exec, ◌>>=◌}
use keybridge.SshAgent.Agent.{Key, Signature, AddedKey}
use keybridge.Utils.Desktop.{Desktop, notify, quote}

-- `agent.NewKeyring().(agent.ExtendedAgent)`, over the keyring's state.
pub record Keyring (S : Type 0) : Type 0 where
  pub list : Exec S (List Key)
  pub sign_with_flags : List ℕ → List ℕ → ℕ → Exec S (Option Signature)
  pub add : AddedKey → Exec S (Unit {0})
  pub remove : List ℕ → Exec S (Unit {0})
  pub remove_all : Exec S (Unit {0})
  pub lock : List ℕ → Exec S (Unit {0})
  pub unlock : List ℕ → Exec S (Unit {0})
  pub signers : Exec S (List (List ℕ))

abbrev is_ok {ℓ} : {A : Type ℓ} → Result A → Bool
is_ok (ok a) = true
is_ok (err e) = false
is_ok panic = false

module _ {S : Type 0} (ag : Keyring S) (base64 : List ℕ → String) where
  -- A call of the keyring, which cannot touch the desktop.
  on_keyring : {A : Type 0} → Exec S A → Exec (S × Desktop) A
  on_keyring op (s, d) = let (r, s') = op s in (r, (s', d))

  -- `if err == nil { Notify(…) }`
  on_success : {A : Type 0} → String → String → Exec (S × Desktop) A → Exec (S × Desktop) A
  on_success title message op sd =
      let (r, (s, d)) = op sd in (r, (s, if is_ok r then notify title message d else d))

  pub comment_in : List Key → List ℕ → String
  comment_in [] wanted = base64 wanted
  comment_in (k ∷ ks) wanted = if bytes_equal k.blob wanted then k.comment else comment_in ks wanted

  comment_or : Result (List Key) → List ℕ → Result String
  unfolding comment_in
  comment_or (ok keys) wanted = ok (comment_in keys wanted)
  comment_or (err e) wanted = ok (base64 wanted)
  comment_or panic wanted = panic

  -- `findKeyComment`
  find_key_comment : List ℕ → Exec (S × Desktop) String
  unfolding comment_or
  find_key_comment key (s, d) = let (r, s') = ag.list s in (comment_or r key, (s', d))

  pub list : Exec (S × Desktop) (List Key)
  unfolding on_keyring
  list = on_keyring ag.list

  pub sign_with_flags : List ℕ → List ℕ → ℕ → Exec (S × Desktop) (Option Signature)
  unfolding on_keyring on_success find_key_comment
  sign_with_flags key bytes flags = do
    comment ← find_key_comment key
    on_success "Authenticated (Keyring)" (quote "Authentication Success by Key <" comment ">")
        (on_keyring (ag.sign_with_flags key bytes flags))

  pub sign : List ℕ → List ℕ → Exec (S × Desktop) (Option Signature)
  unfolding sign_with_flags
  sign key bytes = sign_with_flags key bytes 0

  pub add : AddedKey → Exec (S × Desktop) (Unit {0})
  unfolding on_keyring on_success
  add key =
      on_success "Key Added" (quote "Key <" key.comment "> has been added to keyring")
        (on_keyring (ag.add key))

  pub remove : List ℕ → Exec (S × Desktop) (Unit {0})
  unfolding on_keyring on_success find_key_comment
  remove key = do
    comment ← find_key_comment key
    on_success "Key Removed" (quote "Key <" comment "> has been removed from keyring")
        (on_keyring (ag.remove key))

  pub remove_all : Exec (S × Desktop) (Unit {0})
  unfolding on_keyring on_success
  remove_all =
      on_success "Key Removed" "All Keys have been removed from keyring" (on_keyring ag.remove_all)

  pub lock : List ℕ → Exec (S × Desktop) (Unit {0})
  unfolding on_keyring
  lock passphrase = on_keyring (ag.lock passphrase)

  pub unlock : List ℕ → Exec (S × Desktop) (Unit {0})
  unfolding on_keyring
  unlock passphrase = on_keyring (ag.unlock passphrase)

  pub signers : Exec (S × Desktop) (List (List ℕ))
  unfolding on_keyring
  signers = on_keyring ag.signers
