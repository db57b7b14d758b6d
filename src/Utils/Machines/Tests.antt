-- ===== src/Utils/Machines/Tests.antt =====
-- Runs and instances of the theorems about the machine list and the process notifications.
use keybridge.Base.{ℕ, ◌≡◌, refl, List, [], ◌∷◌, true, none, inl, inr, All}
use keybridge.Base.Outcome.{eof, ok, panic}
use keybridge.Utils.Machines.{
  split, has_brace, last_braced, is_key, put_key, collect, inside, all_inside, get_vm_ids,
  WmiProcessEvent, process_event, error_event, event, done, dispatch,
}
use keybridge.Utils.Machines.Ids.{Found, get_vm_ids-Found}
use keybridge.Utils.Machines.Events.{IsOrdinary, dispatch_ends}

-- "h {a} 1", "h {b}" and "h {a} 2"
abbrev lines : List (List ℕ)
lines =
    (104 ∷ 32 ∷ 123 ∷ 97 ∷ 125 ∷ 32 ∷ 49 ∷ [])
    ∷ (104 ∷ 32 ∷ 123 ∷ 98 ∷ 125 ∷ [])
    ∷ (104 ∷ 32 ∷ 123 ∷ 97 ∷ 125 ∷ 32 ∷ 50 ∷ [])
    ∷ []

ids_run : get_vm_ids (inr lines) ≡ ok ((98 ∷ []) ∷ (97 ∷ []) ∷ [])
unfolding get_vm_ids collect split last_braced put_key is_key all_inside inside has_brace
ids_run = refl

brace_run : get_vm_ids (inr ((104 ∷ 32 ∷ 123 ∷ []) ∷ [])) ≡ panic
unfolding get_vm_ids collect split last_braced put_key is_key all_inside inside has_brace
brace_run = refl

error_run : get_vm_ids (inl eof) ≡ ok []
unfolding get_vm_ids
error_run = refl

lines-Found : Found lines (get_vm_ids (inr lines))
lines-Found = get_vm_ids-Found lines

abbrev created : WmiProcessEvent
created = record {
  time_stamp = 1;
  class = "__InstanceCreationEvent";
  process_id = 40;
  name = 119 ∷ [];
  command_line = 104 ∷ [];
}

created_sent :
    (dispatch (event created ∷ done none ∷ [])
      ≡ (process_event created ∷ error_event none ∷ [], true))
    × All IsOrdinary (process_event created ∷ [])
created_sent = dispatch_ends (created ∷ []) none []
