-- ===== src/Startup.antt =====
-- main.go and menu.go: the agent that the process serves, by its flags, the menu with the handlers of its
-- items, and the loop over the clicks.
pub mod Menu
pub mod Install
pub mod Begin
pub mod Programs
pub mod Life
pub mod Requests
mod Tests
use keybridge.Base.{ℕ, String, List, [], ◌∷◌, Bool, none, some, if◌then◌else◌}
use keybridge.Base.Outcome.{Exec}
use keybridge.SshAgent.Agent.{Agent, implement_me}
use keybridge.SshAgent.KeyRing
use keybridge.SshAgent.KeyRing.{Keyring}
use keybridge.SshAgent.CapiAgent
use keybridge.SshAgent.CapiAgent.Signing
use keybridge.SshAgent.CapiAgent.{Outside, CapiAgent}
use keybridge.SshAgent.HyperV.{Parent, Links, new_hv_agent}
use keybridge.SshAgent.Wrapped
use keybridge.SshAgent.Wrapped.{new_wrapped_agent}
use keybridge.Utils.Desktop.{Desktop}

-- What the agents of a process keep: the keyring's state, the certificate agent with the desktop that both
-- notify, and the connections to the host.
pub record Process (S : Type 0) : Type 0 where
  pub keyring : S
  pub capi : CapiAgent
  pub links : Links

module _ {S : Type 0} where
  -- A method of the keyring agent, which sees the keyring and the desktop.
  abbrev pub on_keyring : {A : Type 0} → Exec (S × Desktop) A → Exec (Process S) A
  on_keyring op s =
      let (r, (keyring, desktop)) = op (s.keyring, s.capi.desktop) in
      (r, record s { keyring = keyring; capi = record (s.capi) { desktop = desktop } })

  abbrev pub on_capi : {A : Type 0} → Exec CapiAgent A → Exec (Process S) A
  on_capi op s = let (r, capi) = op s.capi in (r, record s { capi = capi })

  abbrev pub on_links : {A : Type 0} → Exec Links A → Exec (Process S) A
  on_links op s = let (r, links) = op s.links in (r, record s { links = links })

  -- `sshagent.NewKeyRingAgent()`
  pub key_ring_agent : Keyring S → (List ℕ → String) → Agent (Process S)
  key_ring_agent ag base64 = record {
    list = on_keyring (KeyRing.list ag base64);
    sign = λ key bytes. on_keyring (KeyRing.sign ag base64 key bytes);
    sign_with_flags =
        some (λ key bytes flags. on_keyring (KeyRing.sign_with_flags ag base64 key bytes flags));
    add = λ key. on_keyring (KeyRing.add ag base64 key);
    remove = λ key. on_keyring (KeyRing.remove ag base64 key);
    remove_all = on_keyring (KeyRing.remove_all ag base64);
    lock = λ passphrase. on_keyring (KeyRing.lock ag base64 passphrase);
    unlock = λ passphrase. on_keyring (KeyRing.unlock ag base64 passphrase);
    signers = on_keyring (KeyRing.signers ag base64);
  }

  -- `new(sshagent.CAPIAgent)`
  pub capi_agent : Outside → Agent (Process S)
  capi_agent o = record {
    list = on_capi (CapiAgent.list o);
    sign = λ key bytes. on_capi (Signing.sign o key bytes);
    sign_with_flags = some (λ key bytes flags. on_capi (Signing.sign_with_flags o key bytes flags));
    add = λ key. implement_me;
    remove = λ key. implement_me;
    remove_all = implement_me;
    lock = λ passphrase. implement_me;
    unlock = λ passphrase. implement_me;
    signers = implement_me;
  }

  -- `sshagent.NewHVAgent()`
  pub hv_agent : Parent → Agent (Process S)
  hv_agent p =
      let a = new_hv_agent p in
      record {
        list = on_links a.list;
        sign = λ key bytes. on_links (a.sign key bytes);
        sign_with_flags = none;
        add = λ key. on_links (a.add key);
        remove = λ key. on_links (a.remove key);
        remove_all = on_links a.remove_all;
        lock = λ passphrase. on_links (a.lock passphrase);
        unlock = λ passphrase. on_links (a.unlock passphrase);
        signers = on_links a.signers;
      }

  -- The wrapped agent that stands for an `agent.ExtendedAgent`
  pub wrapped : Keyring S → (List ℕ → String) → Outside → Agent (Process S)
  wrapped ag base64 o =
      let w = new_wrapped_agent (key_ring_agent ag base64) (capi_agent o ∷ []) in
      record {
        list = Wrapped.list w;
        sign = Wrapped.sign w;
        sign_with_flags = some (Wrapped.sign_with_flags w);
        add = Wrapped.add w;
        remove = Wrapped.remove w;
        remove_all = Wrapped.remove_all w;
        lock = Wrapped.lock w;
        unlock = Wrapped.unlock w;
        signers = Wrapped.signers w;
      }

  -- The choice of `main`: the flag -disable-capi, and whether the host answers over Hyper-V.
  pub choose_agent :
      Bool → Bool → Keyring S → (List ℕ → String) → Outside → Parent → Agent (Process S)
  choose_agent hv_client disable_capi ag base64 o p =
      if hv_client
      then hv_agent p
      else if disable_capi
      then key_ring_agent ag base64
      else wrapped ag base64 o
