-- ===== src/SshAgent/Wrapped/Tests.antt =====
-- Runs and instances of the theorems about sshagent/wrapped_agent.go.
use keybridge.Base.{ℕ, String, suc, ◌≡◌, refl, List, [], ◌∷◌, Option, none, some}
use keybridge.Base.Outcome.{eof, errorf, Result, ok, err, panic, Exec}
use keybridge.SshAgent.Agent.{Agent, Key, Signature, extension, implement_me}
use keybridge.SshAgent.Wrapped.{
  WrappedAgent, new_wrapped_agent, list_from, list, sign, sign_by, sign_with_flags, add, remove,
  remove_all, lock, unlock, signers,
}
use keybridge.SshAgent.Wrapped.Order.{Answer, sign_with_flags-Answer}
use keybridge.SshAgent.Wrapped.Listing.{Collected, list-Collected}

-- The state counts the calls.
abbrev counted : {A : Type 0} → Result A → Exec ℕ A
counted r n = (r, suc n)

abbrev key_named : String → Key
key_named comment = record { format = "ssh-rsa"; blob = 1 ∷ []; comment = comment }

abbrev signature : Signature
signature = record { format = "ssh-rsa"; blob = 8 ∷ [] }

-- An agent with one key, which signs by this result.
abbrev agent : Result (List Key) → Result (Option Signature) → Agent ℕ
agent keys signed = record {
  list = counted keys;
  sign = λ key bytes. counted signed;
  sign_with_flags = none;
  add = λ key. counted (ok tt);
  remove = λ key. counted (ok tt);
  remove_all = counted (ok tt);
  lock = λ passphrase. counted (err eof);
  unlock = λ passphrase. counted (ok tt);
  signers = implement_me;
}

abbrev keyring : Agent ℕ
keyring = agent (ok (key_named "a" ∷ [])) (err eof)

abbrev capi : Agent ℕ
capi = agent (ok (key_named "b" ∷ [])) (ok (some signature))

abbrev broken : Agent ℕ
broken = agent (err eof) (err eof)

abbrev both : WrappedAgent ℕ
both = record { agents = keyring ∷ capi ∷ [] }

new_run : new_wrapped_agent keyring (capi ∷ []) ≡ both
unfolding new_wrapped_agent
new_run = refl

sign_run : sign both (1 ∷ []) [] 0 ≡ (ok (some signature), 2)
unfolding sign sign_by
sign_run = refl

add_run : add both (record { private_key = []; comment = "" }) 0 ≡ (ok tt, 1)
unfolding add
add_run = refl

remove_run : remove both [] 0 ≡ (ok tt, 1)
unfolding remove
remove_run = refl

remove_all_run : remove_all both 0 ≡ (ok tt, 1)
unfolding remove_all
remove_all_run = refl

lock_run : lock both [] 0 ≡ (err eof, 1)
unfolding lock
lock_run = refl

unlock_run : unlock {S = ℕ} (record { agents = [] }) [] 0 ≡ (panic, 0)
unfolding unlock
unlock_run = refl

signers_run : signers both 0 ≡ (err (errorf "implement me" []), 0)
unfolding signers implement_me
signers_run = refl

extension_run : extension {S = ℕ} [] [] 0 ≡ (err (errorf "agent: extension unsupported" []), 0)
unfolding extension
extension_run = refl

request_answered :
    Answer (1 ∷ []) (2 ∷ []) 0 both.agents 5 (sign_with_flags both (1 ∷ []) (2 ∷ []) 0 5)
request_answered = sign_with_flags-Answer (1 ∷ []) (2 ∷ []) 0 both 5

list_run : list both 0 ≡ (ok (key_named "a" ∷ key_named "b" ∷ []), 2)
unfolding list list_from
list_run = refl

broken_listing :
    Collected
      (keyring ∷ broken ∷ capi ∷ [])
      0
      []
      (list (record { agents = keyring ∷ broken ∷ capi ∷ [] }) 0)
broken_listing = list-Collected (record { agents = keyring ∷ broken ∷ capi ∷ [] }) 0
