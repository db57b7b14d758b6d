-- ===== src/Utils/Pageant.antt =====
-- utils/pageant.go: the window procedure that PuTTY's clients send their requests to. What it calls of
-- Windows, and who answers the request, are parameters; its debug output is left out.
pub mod Guards
pub mod Written
mod Tests
use keybridge.Base.{
  ℕ, suc, ◌+◌, ◌-◌, List, [], ◌∷◌, ◌++◌, Bool, not, ◌&&◌, ◌⊎◌, inl, inr, ltb, ◌==◌, if◌then◌else◌,
  length, take, drop,
}
use keybridge.Base.Outcome.{Error, Result, ok, err, panic}
use keybridge.Base.Bytes.{u32, big_endian}
use keybridge.Utils.Mmap.{Response, replied, failed}

abbrev pub agent_copydata_id : ℕ
agent_copydata_id = 0x804e50ba

abbrev pub agent_max_msglen : ℕ
agent_max_msglen = 8192

-- WM_COPYDATA
abbrev pub wm_copydata : ℕ
wm_copydata = 0x004a

-- What Windows answers: DefWindowProc, the handle of OpenFileMapping (0 if it fails), the security
-- identifiers, whether two are equal, and whether MapViewOfFile succeeds.
pub record Answers : Type 0 where
  pub def_window_proc : ℕ
  pub file_mapping : ℕ
  pub user_sid : Error ⊎ ℕ
  pub default_sid : Error ⊎ ℕ
  pub map_owner : Error ⊎ ℕ
  pub equal_sid : ℕ → ℕ → Bool
  pub view_error : Bool

-- What the procedure changes: the mappings and views that are open, the shared memory that a view maps, which is
-- whole pages and may be less than 8192 bytes, and the requests that were handed to the agent, oldest first.
pub record Desk : Type 0 where
  pub mappings : ℕ
  pub views : ℕ
  pub memory : List ℕ
  pub requests : List (List ℕ)

-- The end of the procedure, by the agent's response. A copy beyond the end of the view faults, which ends the
-- process.
give_answer : Response → Desk → Result ℕ × Desk
give_answer (failed e) d = (ok 0, d)
give_answer (replied bytes) d =
    if ltb agent_max_msglen (length bytes)
    then (ok 0, d)
    else if ltb (length d.memory) (length bytes)
    then (panic, d)
    else (ok 1, record d { memory = bytes ++ drop (length bytes) d.memory })

-- With the view as an array of 8192 bytes, whatever its size: the length is read and checked, the request is
-- copied, and the agent is asked. A read beyond the end of the view faults too.
ask_agent : (List ℕ → Response) → Desk → Result ℕ × Desk
unfolding give_answer
ask_agent serve d =
    let size = u32 (big_endian d.memory + 4) in
    let request = take size d.memory in
    if ltb (length d.memory) 4
    then (panic, d)
    else if ltb agent_max_msglen size
    then (ok 0, d)
    else if ltb (length d.memory) size
    then (panic, d)
    else give_answer (serve request) (record d { requests = d.requests ++ request ∷ [] })

-- A deferred call, which a fault does not run.
abbrev pub deferred : (Desk → Desk) → Result ℕ × Desk → Result ℕ × Desk
deferred call (ok l, d) = (ok l, call d)
deferred call (err e, d) = (err e, call d)
deferred call (panic, d) = (panic, d)

abbrev pub unmap : Desk → Desk
unmap d = record d { views = d.views - 1 }

abbrev pub close_mapping : Desk → Desk
close_mapping d = record d { mappings = d.mappings - 1 }

-- `MapViewOfFile` with its deferred `UnmapViewOfFile`
with_view : Answers → (List ℕ → Response) → Desk → Result ℕ × Desk
unfolding ask_agent
with_view a serve d =
    if a.view_error
    then (ok 0, d)
    else deferred unmap (ask_agent serve (record d { views = suc d.views }))

-- The security check: the mapping's owner is one of the two identifiers of this process.
check_owner :
    Answers → Error ⊎ ℕ → Error ⊎ ℕ → Error ⊎ ℕ → (List ℕ → Response) → Desk → Result ℕ × Desk
unfolding with_view
check_owner a (inl e) ourself2 owner serve d = (ok 0, d)
check_owner a (inr ourself) (inl e) owner serve d = (ok 0, d)
check_owner a (inr ourself) (inr ourself2) (inl e) serve d = (ok 0, d)
check_owner a (inr ourself) (inr ourself2) (inr owner) serve d =
    if not (a.equal_sid owner ourself) && not (a.equal_sid owner ourself2)
    then (ok 0, d)
    else with_view a serve d

-- `OpenFileMapping` with its deferred `CloseHandle`
with_mapping : Answers → (List ℕ → Response) → Desk → Result ℕ × Desk
unfolding check_owner
with_mapping a serve d =
    if a.file_mapping == 0
    then (ok 0, d)
    else deferred close_mapping (
        check_owner a a.user_sid a.default_sid a.map_owner serve
          (record d { mappings = suc d.mappings }))

-- `(*pageantWindow).wndProc`, by the message, the `dwData` of its COPYDATASTRUCT and how the agent
-- responds to a request.
pub wnd_proc : Answers → (List ℕ → Response) → ℕ → ℕ → Desk → Result ℕ × Desk
unfolding with_mapping
wnd_proc a serve message dw_data d =
    if not (message == wm_copydata)
    then (ok a.def_window_proc, d)
    else if not (dw_data == agent_copydata_id)
    then (ok 0, d)
    else with_mapping a serve d
