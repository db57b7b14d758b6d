-- ===== src/Utils/Machines.antt =====
-- utils/wsl2.go and utils/processnotify.go: the virtual machines that run, read from the command lines of
-- their host processes, and the events about these processes. The queries of WMI and their results are
-- parameters; texts are lists of bytes.
pub mod Arguments
pub mod Keys
pub mod Ids
pub mod Events
pub mod Checks
mod Tests
use Prim.Native.String.{String}
use text.Mathlib.Text.{◌==◌ as str_eq}
use keybridge.Base.{
  ℕ, List, [], ◌∷◌, Bool, true, false, ◌||◌, Option, none, some, ◌⊎◌, inl, inr, ◌==◌, if◌then◌else◌,
  length, take, bytes_equal,
}
use keybridge.Base.Outcome.{Error, Result, ok, err, panic}

-- `strings.Split(s, sep)` for a separator of one byte
abbrev pub cons_first : ℕ → List (List ℕ) → List (List ℕ)
cons_first b [] = (b ∷ []) ∷ []
cons_first b (part ∷ parts) = (b ∷ part) ∷ parts

pub split : ℕ → List ℕ → List (List ℕ)
split sep [] = [] ∷ []
split sep (b ∷ bs) = let parts = split sep bs in if b == sep then [] ∷ parts else cons_first b parts

-- `strings.Contains(s, "{")`
pub has_brace : List ℕ → Bool
has_brace [] = false
has_brace (b ∷ bs) = b == 123 || has_brace bs

abbrev pub later_or : Option (List ℕ) → List ℕ → Option (List ℕ)
later_or (some later) arg = some later
later_or none arg = if has_brace arg then some arg else none

-- The loop over the arguments, from the last one to the first: the one that is put into the map.
pub last_braced : List (List ℕ) → Option (List ℕ)
last_braced [] = none
last_braced (arg ∷ args) = later_or (last_braced args) arg

-- `guids[arg] = nil`: a map has each of its keys once.
pub is_key : List ℕ → List (List ℕ) → Bool
is_key k [] = false
is_key k (j ∷ ks) = bytes_equal k j || is_key k ks

pub put_key : Option (List ℕ) → List (List ℕ) → List (List ℕ)
unfolding is_key
put_key none ks = ks
put_key (some k) ks = if is_key k ks then ks else k ∷ ks

-- The loop over the processes, by their command lines.
pub collect : List (List ℕ) → List (List ℕ) → List (List ℕ)
unfolding split last_braced put_key
collect [] ks = ks
collect (line ∷ lines) ks = collect lines (put_key (last_braced (split 32 line)) ks)

-- `k[1:len(k)-1]`, which panics if the end is before the beginning.
pub inside : List ℕ → Result (List ℕ)
inside [] = panic
inside (b ∷ []) = panic
inside (b ∷ c ∷ rest) = ok (take (length rest) (c ∷ rest))

abbrev pub and_id : Result (List ℕ) → Result (List (List ℕ)) → Result (List (List ℕ))
and_id (ok id) (ok ids) = ok (id ∷ ids)
and_id (ok id) (err e) = err e
and_id (ok id) panic = panic
and_id (err e) ids = err e
and_id panic ids = panic

-- The last loop; a map is walked in any order, here from the newest key.
pub all_inside : List (List ℕ) → Result (List (List ℕ))
unfolding inside
all_inside [] = ok []
all_inside (k ∷ ks) = and_id (inside k) (all_inside ks)

-- `GetVMIDs`, by the command lines that the query returns; an error of it is taken for no machine.
pub get_vm_ids : Error ⊎ List (List ℕ) → Result (List (List ℕ))
unfolding collect all_inside
get_vm_ids (inl e) = ok []
get_vm_ids (inr lines) = all_inside (collect lines [])

-- `wmiProcessEvent`
pub record WmiProcessEvent : Type 0 where
  pub time_stamp : ℕ
  pub class : String
  pub process_id : ℕ
  pub name : List ℕ
  pub command_line : List ℕ

-- PROCESS_CREATE, PROCESS_DELETE, PROCESS_MODIFY and PROCESS_ERROR
abbrev pub process_create : ℕ
process_create = 0

abbrev pub process_delete : ℕ
process_delete = 1

abbrev pub process_modify : ℕ
process_modify = 2

abbrev pub process_error : ℕ
process_error = 3

-- `ProcessEvent`; the error is nil except in the event that ends the notifications, and may be nil there.
pub record ProcessEvent : Type 0 where
  pub type : ℕ
  pub error : Option Error
  pub stamp : ℕ
  pub pid : ℕ
  pub image : List ℕ
  pub line : List ℕ

pub type_of : String → ℕ
type_of class =
    if str_eq class "__InstanceCreationEvent"
    then process_create
    else if str_eq class "__InstanceDeletionEvent"
    then process_delete
    else process_modify

pub process_event : WmiProcessEvent → ProcessEvent
unfolding type_of
process_event ev = record {
  type = type_of ev.class;
  error = none;
  stamp = ev.time_stamp;
  pid = ev.process_id;
  image = ev.name;
  line = ev.command_line;
}

pub error_event : Option Error → ProcessEvent
error_event e = record {
  type = process_error;
  error = e;
  stamp = 0;
  pid = 0;
  image = [];
  line = [];
}

-- What comes out of the `select` of `dispatch`: an event of WMI, or the end of the notifications.
pub data Received : Type 0 where
  event : WmiProcessEvent → Received
  done : Option Error → Received

-- `dispatch`: what it sends, and whether it has returned.
pub dispatch : List Received → List ProcessEvent × Bool
unfolding process_event error_event
dispatch [] = ([], false)
dispatch (event ev ∷ more) = let (sent, over) = dispatch more in (process_event ev ∷ sent, over)
dispatch (done e ∷ more) = (error_event e ∷ [], true)
