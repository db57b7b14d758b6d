-- ===== src/SshAgent/Wrapped.antt =====
-- sshagent/wrapped_agent.go: several agents as one.
pub mod Order
pub mod Listing
mod Tests
use keybridge.Base.{ℕ, List, [], ◌∷◌, ◌++◌, Option, none, some}
use keybridge.Base.Outcome.{Error, Result, ok, err, panic, Exec, ◌>>=◌, pure, raise, crash}
use keybridge.SshAgent.Agent.{Agent, Key, Signature, AddedKey}

pub record WrappedAgent (S : Type 0) : Type 0 where
  pub agents : List (Agent S)

-- `if firstError == nil { firstError = err }`
abbrev pub or_first : Option Error → Error → Option Error
or_first none e = some e
or_first (some first) e = some first

module _ {S : Type 0} where
  -- `NewWrappedAgent`
  unfoldable pub new_wrapped_agent : Agent S → List (Agent S) → WrappedAgent S
  new_wrapped_agent default_agent others = record { agents = (default_agent ∷ []) ++ others }

  list_from : List (Agent S) → List Key → Exec S (List Key)
  list_from [] all_keys = pure all_keys
  list_from (a ∷ rest) all_keys = do keys ← a.list; list_from rest (all_keys ++ keys)

  pub list : WrappedAgent S → Exec S (List Key)
  unfolding list_from
  list w = list_from w.agents []

  -- The call of one agent, by whether it is an `agent.ExtendedAgent`.
  abbrev call_sign :
      Option (List ℕ → List ℕ → ℕ → Exec S (Option Signature))
      → Agent S
      → List ℕ
      → List ℕ
      → ℕ
      → Exec S (Option Signature)
  call_sign (some extended) a key bytes flags = extended key bytes flags
  call_sign none a key bytes flags = a.sign key bytes

  unfoldable pub sign_by : Agent S → List ℕ → List ℕ → ℕ → Exec S (Option Signature)
  sign_by a key bytes flags = call_sign a.sign_with_flags a key bytes flags

  -- `return nil, firstError`: without an error the result is a nil signature.
  abbrev give_up : Option Error → Exec S (Option Signature)
  give_up none = pure none
  give_up (some first) = raise first

  -- What the loop does with the answer of one agent.
  abbrev or_next :
      (Error → Exec S (Option Signature)) → Result (Option Signature) → Exec S (Option Signature)
  or_next next (ok signature) = pure signature
  or_next next (err e) = next e
  or_next next panic = crash

  sign_from : List (Agent S) → List ℕ → List ℕ → ℕ → Option Error → Exec S (Option Signature)
  sign_from [] key bytes flags first s = give_up first s
  sign_from (a ∷ rest) key bytes flags first s =
      let (r, s') = sign_by a key bytes flags s in
      or_next (λ e. sign_from rest key bytes flags (or_first first e)) r s'

  pub sign_with_flags : WrappedAgent S → List ℕ → List ℕ → ℕ → Exec S (Option Signature)
  unfolding sign_from
  sign_with_flags w key bytes flags = sign_from w.agents key bytes flags none

  pub sign : WrappedAgent S → List ℕ → List ℕ → Exec S (Option Signature)
  unfolding sign_with_flags
  sign w key bytes = sign_with_flags w key bytes 0

  -- `a.agents[0].Op(…)`, which panics on an empty slice.
  on_first : {A : Type 0} → (Agent S → Exec S A) → List (Agent S) → Exec S A
  on_first op [] = crash
  on_first op (a ∷ rest) = op a

  pub add : WrappedAgent S → AddedKey → Exec S (Unit {0})
  unfolding on_first
  add w key = on_first (λ a. a.add key) w.agents

  pub remove : WrappedAgent S → List ℕ → Exec S (Unit {0})
  unfolding on_first
  remove w key = on_first (λ a. a.remove key) w.agents

  pub remove_all : WrappedAgent S → Exec S (Unit {0})
  unfolding on_first
  remove_all w = on_first (λ a. a.remove_all) w.agents

  pub lock : WrappedAgent S → List ℕ → Exec S (Unit {0})
  unfolding on_first
  lock w passphrase = on_first (λ a. a.lock passphrase) w.agents

  pub unlock : WrappedAgent S → List ℕ → Exec S (Unit {0})
  unfolding on_first
  unlock w passphrase = on_first (λ a. a.unlock passphrase) w.agents

  pub signers : WrappedAgent S → Exec S (List (List ℕ))
  unfolding on_first
  signers w = on_first (λ a. a.signers) w.agents
