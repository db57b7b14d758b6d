-- ===== src/Utils/ProcessNotify/Sent.antt =====
-- What the dispatcher sends over its channel.
use keybridge.Base.{
  ◌≡◌, refl, ap, sym, subst, ◌∙◌, List, [], ◌∷◌, ◌++◌, append_assoc, append-nil, Bool, true, false,
  arith, ◌⊎◌, inl, inr,
}
use keybridge.Utils.Machines.{
  ProcessEvent, process_event, error_event, Received, event, done, dispatch,
}
use keybridge.Utils.Machines.Events.{dispatch-append, dispatch_first, dispatch_one, dispatch_end}
use keybridge.Utils.ProcessNotify.{
  Dispatcher, receiving, sending, returned, Notifying, started, behind_send, Step, observed, ended,
  told, sent, took, leaves, Reach, here, next,
}

-- The event that is being sent, and whether `dispatch` takes nothing more.
abbrev pub pending : Dispatcher → List ProcessEvent
pending receiving = []
pending (sending ev last) = ev ∷ []
pending returned = []

abbrev pub is_over : Dispatcher → Bool
is_over receiving = false
is_over (sending ev last) = last
is_over returned = true

-- What was taken, what waits in the channel and what is being sent are what the dispatcher makes of what it has
-- received, in this order; the channel has room for one.
pub record IsDispatched (s : Notifying) : Type 0 where
  pub in_order :
      dispatch s.received ≡ (s.taken ++ s.queued ++ pending s.dispatcher, is_over s.dispatcher)
  pub at_most_one : (s.queued ≡ []) ⊎ ((ev : ProcessEvent) × (s.queued ≡ ev ∷ []))

-- One thing more that is received, where the dispatcher stands at its `select`.
receive :
    (s : Notifying) (r : Received) (ev : ProcessEvent) (last : Bool)
    → IsDispatched s
    → s.dispatcher ≡ receiving
    → dispatch (r ∷ []) ≡ (ev ∷ [], last)
    → dispatch (s.received ++ r ∷ []) ≡ (s.taken ++ s.queued ++ ev ∷ [], last)
receive s r ev last i at one =
    dispatch-append s.received (r ∷ []) (ap (λ d. d.1) i.in_order ∙ ap is_over at)
    ∙ ap (λ (d : List ProcessEvent × Bool). ((dispatch s.received).0 ++ d.0, d.1)) one
    ∙ ap (λ l. (l ++ ev ∷ [], last))
        (ap (λ d. d.0) i.in_order ∙ ap (λ d. s.taken ++ s.queued ++ pending d) at)
    ∙ ap (λ l. (l ++ ev ∷ [], last)) (append-nil (s.taken ++ s.queued))

-- What waits in the channel moves on: the order stays.
moved :
    (taken rest : List ProcessEvent) (ev : ProcessEvent)
    → (taken ++ ev ∷ []) ++ rest ≡ taken ++ ev ∷ rest
moved taken rest ev = append_assoc taken (ev ∷ []) rest

after_send :
    (taken : List ProcessEvent) (ev : ProcessEvent) (last : Bool)
    → ◌≡◌ {A = List ProcessEvent × Bool}
        (taken ++ [] ++ ev ∷ [], last)
        (taken ++ ev ∷ [] ++ pending (behind_send last), is_over (behind_send last))
after_send taken ev last =
    ap (λ l. (l ++ ev ∷ [], last)) (append-nil taken)
    ∙ ap (λ l. (l, last)) (sym (append-nil (taken ++ ev ∷ [])))
    ∙ ended_by last
  where
    ended_by :
        (l : Bool)
        → ◌≡◌ {A = List ProcessEvent × Bool}
            (taken ++ ev ∷ [] ++ [], l)
            (taken ++ ev ∷ [] ++ pending (behind_send l), is_over (behind_send l))
    ended_by true = refl
    ended_by false = refl

pub Step-IsDispatched : (s t : Notifying) → IsDispatched s → Step s t → IsDispatched t
Step-IsDispatched s t i (observed ev on at e) = subst IsDispatched (sym e) (record {
  in_order = receive s (event ev) (process_event ev) false i at (dispatch_one ev);
  at_most_one = i.at_most_one;
})
Step-IsDispatched s t i (ended x on e) =
    subst IsDispatched (sym e) (record { in_order = i.in_order; at_most_one = i.at_most_one })
Step-IsDispatched s t i (told x holds at e) = subst IsDispatched (sym e) (record {
  in_order = receive s (done x) (error_event x) true i at (dispatch_end x);
  at_most_one = i.at_most_one;
})
Step-IsDispatched s t i (sent ev last at room e) = subst IsDispatched (sym e) (record {
  in_order =
      i.in_order
      ∙ ap (λ d. (s.taken ++ s.queued ++ pending d, is_over d)) at
      ∙ ap (λ q. (s.taken ++ q ++ ev ∷ [], last)) room
      ∙ after_send s.taken ev last;
  at_most_one = inr (ev, refl);
})
Step-IsDispatched s t i (took ev rest on waits e) = subst IsDispatched (sym e) (record {
  in_order =
      i.in_order
      ∙ ap (λ q. (s.taken ++ q ++ pending s.dispatcher, is_over s.dispatcher)) waits
      ∙ ap (λ l. (l ++ pending s.dispatcher, is_over s.dispatcher)) (sym (moved s.taken rest ev));
  at_most_one = elim i.at_most_one [
    | inl none_there ↦ absurd (ground (arith, waits, none_there))
    | inr (x, one) ↦ inl (let p : rest ≡ [] = ground (arith, one, waits) in p)
  ];
})
Step-IsDispatched s t i (leaves on e) =
    subst IsDispatched (sym e) (record { in_order = i.in_order; at_most_one = i.at_most_one })

-- In every interleaving the events that the watcher has taken, the one that the channel holds and the one being
-- sent are, in this order, what the dispatcher makes of the events of WMI and the end of the notifications that
-- it has received, none lost and none twice; it takes nothing behind the end; and the channel holds one at most.
pub Reach-IsDispatched : (s : Notifying) → Reach started s → IsDispatched s
Reach-IsDispatched s here = record { in_order = dispatch_first; at_most_one = inl refl }
Reach-IsDispatched s (next {t = m} r st) = Step-IsDispatched m s (Reach-IsDispatched m r) st
