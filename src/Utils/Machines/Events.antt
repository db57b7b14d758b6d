-- ===== src/Utils/Machines/Events.antt =====
-- What the dispatcher of process notifications sends.
use Prim.Native.String.{String}
use text.Mathlib.Text.{◌==◌ as str_eq}
use keybridge.Base.{
  ◌≡◌, ◌≢◌, refl, ap, List, [], ◌∷◌, ◌++◌, map, Bool, true, false, Option, none, All, arith,
  Bool-cases, inl, inr,
}
use keybridge.Base.Outcome.{Error}
use keybridge.Utils.Machines.{
  WmiProcessEvent, ProcessEvent, process_error, type_of, process_event, error_event, Received,
  event, done, dispatch,
}

-- An event that does not end the notifications.
abbrev pub IsOrdinary : ProcessEvent → Type 0
IsOrdinary e = (e.type ≢ process_error) × (e.error ≡ none)

type_of-ordinary : (class : String) → type_of class ≢ process_error
unfolding type_of
type_of-ordinary class h = elim (Bool-cases (str_eq class "__InstanceCreationEvent")) [
  | inl q ↦ ground (arith, h, q)
  | inr q ↦ elim (Bool-cases (str_eq class "__InstanceDeletionEvent")) [
    | inl r ↦ ground (arith, h, q, r)
    | inr r ↦ ground (arith, h, q, r)
  ]
]

process_events-IsOrdinary : (evs : List WmiProcessEvent) → All IsOrdinary (map process_event evs)
unfolding process_event
process_events-IsOrdinary [] = tt
process_events-IsOrdinary (ev ∷ evs) =
    ((type_of-ordinary ev.class, refl), process_events-IsOrdinary evs)

dispatch-done :
    (evs : List WmiProcessEvent) (e : Option Error) (behind : List Received)
    → dispatch (map event evs ++ done e ∷ behind)
      ≡ (map process_event evs ++ error_event e ∷ [], true)
unfolding dispatch
dispatch-done [] e behind = refl
dispatch-done (ev ∷ evs) e behind =
    ap (λ (r : List ProcessEvent × Bool). (process_event ev ∷ r.0, r.1))
      (dispatch-done evs e behind)

-- Until the notifications end, each event of WMI is sent on in its order as an event that is no error; when
-- they end, one error event is sent, with the error of the end, also if that is nil, and nothing comes behind
-- it.
pub dispatch_ends :
    (evs : List WmiProcessEvent) (e : Option Error) (behind : List Received)
    → (dispatch (map event evs ++ done e ∷ behind)
        ≡ (map process_event evs ++ error_event e ∷ [], true))
      × All IsOrdinary (map process_event evs)
dispatch_ends evs e behind = (dispatch-done evs e behind, process_events-IsOrdinary evs)

-- A list that did not end the dispatcher, and what it receives behind it.
pub dispatch-append :
    (rs qs : List Received)
    → (dispatch rs).1 ≡ false
    → dispatch (rs ++ qs) ≡ ((dispatch rs).0 ++ (dispatch qs).0, (dispatch qs).1)
unfolding dispatch
dispatch-append [] qs h = refl
dispatch-append (event ev ∷ rs) qs h =
    ap (λ (r : List ProcessEvent × Bool). (process_event ev ∷ r.0, r.1)) (dispatch-append rs qs h)
dispatch-append (done e ∷ rs) qs h = absurd (ground arith)

pub dispatch_first : dispatch [] ≡ ([], false)
unfolding dispatch
dispatch_first = refl

pub dispatch_one :
    (ev : WmiProcessEvent) → dispatch (event ev ∷ []) ≡ (process_event ev ∷ [], false)
unfolding dispatch
dispatch_one ev = refl

pub dispatch_end : (e : Option Error) → dispatch (done e ∷ []) ≡ (error_event e ∷ [], true)
unfolding dispatch
dispatch_end e = refl
