-- ===== src/App/VSock/Setup.antt =====
-- app/vsock.go around its loops: the checks before Run listens, a worker of the watcher, and the waiting
-- between its rounds.
mod Tests
use keybridge.Base.{
  ℕ, List, [], ◌∷◌, Bool, true, not, Option, none, some, ◌⊎◌, inl, inr, if◌then◌else◌,
}
use keybridge.Base.Outcome.{Error, Result, ok, err}

-- What `(*VSock).Run` does before its loop: it stays out, without an error, or listens, and is running.
pub record VSock : Type 0 where
  pub running : Bool

listening_by : Error ⊎ ℕ → VSock → Result (Option ℕ) × VSock
listening_by (inl e) s = (err e, s)
listening_by (inr listener) s = (ok (some listener), record s { running = true })

-- By whether this is a guest, CheckHvSocket, CheckHVService and ListenHvsock.
pub start : Bool → Bool → Bool → Error ⊎ ℕ → VSock → Result (Option ℕ) × VSock
unfolding listening_by
start is_hv hv_socket hv_service listen s =
    if is_hv
    then (ok none, s)
    else if not hv_socket
    then (ok none, s)
    else if not hv_service
    then (ok none, s)
    else listening_by listen s

-- `newVSockWorker`, by guid.FromString and ListenHvsock: the worker's listener.
pub new_vsock_worker : (ℕ → Error ⊎ ℕ) → (ℕ → Error ⊎ ℕ) → ℕ → Error ⊎ ℕ
new_vsock_worker from_string listen_hvsock vmid = elim (from_string vmid) [
  | inl e ↦ inl e
  | inr guid ↦ listen_hvsock guid
]

-- What `Accept` returns to a worker
pub data Accepted : Type 0 where
  connected : ℕ → Accepted
  failed : Error → Accepted

-- `(*vSockWorker).Run`: the connections that go to a handler, up to the first error.
pub run_worker : List Accepted → List ℕ
run_worker [] = []
run_worker (connected conn ∷ rounds) = conn ∷ run_worker rounds
run_worker (failed e ∷ rounds) = []

-- The seconds between two rounds when no process is announced: notifications that cannot be had are made up
-- for by polling.
unfoldable pub poll_seconds : Option Error → ℕ
poll_seconds none = 60
poll_seconds (some e) = 15
