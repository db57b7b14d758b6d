-- ===== src/SshAgent/Agent.antt =====
-- The interface `agent.Agent` of golang.org/x/crypto/ssh/agent, over a state that the agent's methods
-- change. A public key stands for its wire form (`Marshal`), and a nil result for `none`.
use keybridge.Base.{ℕ, String, List, [], Option}
use keybridge.Base.Outcome.{errorf, err, Exec}

-- `agent.Key`
pub record Key : Type 0 where
  pub format : String
  pub blob : List ℕ
  pub comment : String

-- `ssh.Signature`
pub record Signature : Type 0 where
  pub format : String
  pub blob : List ℕ

-- `agent.AddedKey`, as far as the code looks at it
pub record AddedKey : Type 0 where
  pub private_key : List ℕ
  pub comment : String

-- `sign_with_flags` is there for an `agent.ExtendedAgent` only.
pub record Agent (S : Type 0) : Type 0 where
  pub list : Exec S (List Key)
  pub sign : List ℕ → List ℕ → Exec S (Option Signature)
  pub sign_with_flags : Option (List ℕ → List ℕ → ℕ → Exec S (Option Signature))
  pub add : AddedKey → Exec S (Unit {0})
  pub remove : List ℕ → Exec S (Unit {0})
  pub remove_all : Exec S (Unit {0})
  pub lock : List ℕ → Exec S (Unit {0})
  pub unlock : List ℕ → Exec S (Unit {0})
  pub signers : Exec S (List (List ℕ))

-- `Extension` of `KeyRingAgent`, `WrappedAgent` and `CAPIAgent`: `agent.ErrExtensionUnsupported`.
unfoldable pub extension : {S : Type 0} → List ℕ → List ℕ → Exec S (List ℕ)
extension extension_type contents s = (err (errorf "agent: extension unsupported" []), s)

-- The methods of `CAPIAgent` and `HVAgent` that only return an error.
unfoldable pub implement_me : {S A : Type 0} → Exec S A
implement_me s = (err (errorf "implement me" []), s)
