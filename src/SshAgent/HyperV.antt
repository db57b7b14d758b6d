-- ===== src/SshAgent/HyperV.antt =====
-- sshagent/hyperv.go, sshagent/server.go and ConnectHyperV of utils/hyperv.go: the agent of a Hyper-V
-- guest, which asks the agent of the host over a connection of its own for each request, and the
-- handler of a client's connection. Dialling, the client and the server of golang.org/x/crypto are
-- parameters.
pub mod Sessions
pub mod Interleaved
mod Tests
use keybridge.Base.{ℕ, suc, List, [], ◌∷◌, ◌++◌, Bool, true, Option, none, some, ◌⊎◌, inl, inr}
use keybridge.Base.Outcome.{Error, eof, Result, ok, err, panic, Exec}
use keybridge.SshAgent.Agent.{Agent, Key, Signature, implement_me}

-- `hvsock.GUIDFromString` of the service, `hvsock.Dial` by the dials before it, and the client's `List`
-- and `Sign` over a connection.
pub record Parent : Type 0 where
  pub guid_from_string : Error ⊎ ℕ
  pub dial : ℕ → ℕ → Error ⊎ ℕ
  pub client_list : ℕ → Result (List Key)
  pub client_sign : ℕ → List ℕ → List ℕ → Result (Option Signature)

-- The connections to the host: how often it was dialled, those that were opened and those that were
-- closed, oldest first.
pub record Links : Type 0 where
  pub dials : ℕ
  pub opened : List ℕ
  pub closed : List ℕ

dialled : Error ⊎ ℕ → Exec Links ℕ
dialled (inl e) l = (err e, record l { dials = suc l.dials })
dialled (inr conn) l = (ok conn, record l { dials = suc l.dials; opened = l.opened ++ conn ∷ [] })

connect_by : Parent → Error ⊎ ℕ → Exec Links ℕ
unfolding dialled
connect_by p (inl e) l = (err e, l)
connect_by p (inr svcid) l = dialled (p.dial svcid l.dials) l

-- `ConnectHyperV`
pub connect_hyper_v : Parent → Exec Links ℕ
unfolding connect_by
connect_hyper_v p = connect_by p p.guid_from_string

-- The rest of a method over the connection, with its deferred `conn.Close()`, which runs behind a panic too.
pub closing : {A : Type 0} → (ℕ → Result A) → Result ℕ → Exec Links A
closing op (err e) l = (err e, l)
closing op panic l = (panic, l)
closing op (ok conn) l = (op conn, record l { closed = l.closed ++ conn ∷ [] })

-- A method by itself: requests of several clients run at the same time, which Interleaved does.
pub over_link : {A : Type 0} → Parent → (ℕ → Result A) → Exec Links A
unfolding closing connect_hyper_v
over_link p op l = let (r, l') = connect_hyper_v p l in closing op r l'

-- `(*HVAgent).List`
pub list : Parent → Exec Links (List Key)
unfolding over_link
list p = over_link p p.client_list

-- `(*HVAgent).Sign`
pub sign : Parent → List ℕ → List ℕ → Exec Links (Option Signature)
unfolding over_link
sign p key bytes = over_link p (λ conn. p.client_sign conn key bytes)

-- `NewHVAgent`, which is no `agent.ExtendedAgent`
pub new_hv_agent : Parent → Agent Links
new_hv_agent p = record {
  list = list p;
  sign = sign p;
  sign_with_flags = none;
  add = λ key. implement_me;
  remove = λ key. implement_me;
  remove_all = implement_me;
  lock = λ passphrase. implement_me;
  unlock = λ passphrase. implement_me;
  signers = implement_me;
}

-- What the handler does not print: success and the end of the stream.
abbrev pub printed : Result (Unit {0}) → List Error
printed (ok u) = []
printed (err eof) = []
printed (err e) = e ∷ []
printed panic = []

-- A client's connection: whether it was closed, and what was printed about it.
pub record Client : Type 0 where
  pub closed : Bool
  pub log : List Error

abbrev pub ended : Result (Unit {0}) → Result (Unit {0})
ended (ok u) = ok tt
ended (err e) = ok tt
ended panic = panic

-- `(*Server).SSHAgentHandler` with its deferred `conn.Close()`, by the server's agent, which may be nil,
-- and by `agent.ServeAgent`.
pub ssh_agent_handler :
    {S : Type 0} → Option (Agent S) → (Agent S → Exec S (Unit {0})) → Exec (S × Client) (Unit {0})
ssh_agent_handler none serve_agent (s, c) = (ok tt, (s, record c { closed = true }))
ssh_agent_handler (some agent) serve_agent (s, c) =
    let (r, s') = serve_agent agent s in
    (ended r, (s', record { closed = true; log = c.log ++ printed r }))
