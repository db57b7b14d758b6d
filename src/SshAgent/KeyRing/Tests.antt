-- ===== src/SshAgent/KeyRing/Tests.antt =====
-- Runs and instances of the theorems about sshagent/keyring_agent.go.
use keybridge.Base.{ℕ, String, suc, ◌≡◌, refl, List, [], ◌∷◌, true, false, some}
use keybridge.Base.Outcome.{eof, Result, ok, err, Exec}
use keybridge.SshAgent.Agent.{Key, Signature}
use keybridge.SshAgent.KeyRing.{Keyring, list, sign, lock, unlock, signers}
use keybridge.Utils.Desktop.{Desktop, register_notifier, notify}

abbrev laptop : Key
laptop = record { format = "ssh-rsa"; blob = 1 ∷ []; comment = "laptop" }

abbrev signature : Signature
signature = record { format = "ssh-rsa"; blob = 8 ∷ [] }

-- The state counts the calls.
abbrev counted : {A : Type 0} → Result A → Exec ℕ A
counted r n = (r, suc n)

-- A keyring with one key, which removes by this result.
abbrev keyring : Result (Unit {0}) → Keyring ℕ
keyring removed = record {
  list = counted (ok (laptop ∷ []));
  sign_with_flags = λ key bytes flags. counted (ok (some signature));
  add = λ key. counted (ok tt);
  remove = λ key. counted removed;
  remove_all = counted (ok tt);
  lock = λ passphrase. counted (ok tt);
  unlock = λ passphrase. counted (err eof);
  signers = counted (ok []);
}

abbrev base64 : List ℕ → String
base64 bytes = "AQ=="

abbrev desktop : Desktop
desktop = record { has_notifier = true; shown = [] }

abbrev showing : String → String → Desktop
showing title message = record desktop { shown = record { title = title; message = message } ∷ [] }

sign_run : sign (keyring (ok tt)) base64 (9 ∷ []) [] (0, desktop) ≡ (
  ok (some signature),
  (2, showing "Authenticated (Keyring)" "Authentication Success by Key <AQ==>"),
)
unfolding sign notify
sign_run = refl

list_run : list (keyring (ok tt)) base64 (0, desktop) ≡ (ok (laptop ∷ []), (1, desktop))
unfolding list
list_run = refl

lock_run : lock (keyring (ok tt)) base64 [] (0, desktop) ≡ (ok tt, (1, desktop))
unfolding lock
lock_run = refl

unlock_run : unlock (keyring (ok tt)) base64 [] (0, desktop) ≡ (err eof, (1, desktop))
unfolding unlock
unlock_run = refl

signers_run : signers (keyring (ok tt)) base64 (0, desktop) ≡ (ok [], (1, desktop))
unfolding signers
signers_run = refl

registered_run : register_notifier (record { has_notifier = false; shown = [] }) ≡ desktop
unfolding register_notifier
registered_run = refl
