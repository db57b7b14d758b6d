-- ===== src/App/VSock.antt =====
-- app/vsock.go: the listeners that the WSL2 watcher keeps, one for each running virtual machine. Machine
-- identifiers are numbers here; what they are is never looked at. Listening is a parameter.
pub mod Workers
pub mod Setup
pub mod Watch
mod Tests
use keybridge.Base.{
  ℕ, List, [], ◌∷◌, ◌++◌, Bool, true, false, Option, none, some, ◌==◌, if◌then◌else◌,
}

-- Membership in the map that a slice's elements are put into.
abbrev pub has : ℕ → List ℕ → Bool
has v [] = false
has v (x ∷ xs) = if v == x then true else has v xs

-- The loop that appends the elements of the first list that are not in the second.
pub missing : List ℕ → List ℕ → List ℕ
missing [] ids = []
missing (v ∷ vs) ids = let rest = missing vs ids in if has v ids then rest else v ∷ rest

-- `vmidDiff`: what is new, and what is gone.
pub vmid_diff : List ℕ → List ℕ → List ℕ × List ℕ
unfolding missing
vmid_diff old new = (missing new old, missing old new)

-- The map from machines to workers, a worker being the listener it has.
abbrev pub lookup : ℕ → List (ℕ × ℕ) → Option ℕ
lookup v [] = none
lookup v ((k, w) ∷ ws) = if v == k then some w else lookup v ws

abbrev pub delete : ℕ → List (ℕ × ℕ) → List (ℕ × ℕ)
delete v [] = []
delete v ((k, w) ∷ ws) = let rest = delete v ws in if v == k then rest else (k, w) ∷ rest

abbrev pub insert : ℕ → ℕ → List (ℕ × ℕ) → List (ℕ × ℕ)
insert v w ws = (v, w) ∷ delete v ws

-- What the loop of `wsl2Watcher` carries from round to round, and the listeners it has closed.
pub record Watcher : Type 0 where
  pub last_vmids : List ℕ
  pub workers : List (ℕ × ℕ)
  pub closed : List ℕ

-- `newVSockWorker` by what ListenHvsock returns: a listener, or an error. A machine whose listener fails
-- is skipped.
pub start_worker : Option ℕ → ℕ → List (ℕ × ℕ) → List (ℕ × ℕ)
start_worker none v ws = ws
start_worker (some w) v ws = insert v w ws

pub start_workers : (ℕ → Option ℕ) → List ℕ → List (ℕ × ℕ) → List (ℕ × ℕ)
unfolding start_worker
start_workers listen [] ws = ws
start_workers listen (v ∷ vs) ws = start_workers listen vs (start_worker (listen v) v ws)

pub stop_worker : Option ℕ → ℕ → List (ℕ × ℕ) × List ℕ → List (ℕ × ℕ) × List ℕ
stop_worker none v s = s
stop_worker (some w) v (ws, closed) = (delete v ws, closed ++ w ∷ [])

pub stop_workers : List ℕ → List (ℕ × ℕ) × List ℕ → List (ℕ × ℕ) × List ℕ
unfolding stop_worker
stop_workers [] s = s
stop_workers (v ∷ vs) s = stop_workers vs (stop_worker (lookup v s.0) v s)

-- One round of the loop of `wsl2Watcher`: the machines that run now, and what listening for each returns.
pub round : (ℕ → Option ℕ) → List ℕ → Watcher → Watcher
unfolding vmid_diff start_workers stop_workers
round listen vmids s =
    let (add, del) = vmid_diff s.last_vmids vmids in
    let (workers, closed) = stop_workers del (start_workers listen add s.workers, s.closed) in
    record { last_vmids = vmids; workers = workers; closed = closed }

-- The watcher before its first round.
abbrev pub idle : Watcher
idle = record { last_vmids = []; workers = []; closed = [] }
