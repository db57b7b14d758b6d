-- ===== src/Utils/ProcessNotify/Delivery.antt =====
-- Whether the events come to the watcher.
use keybridge.Base.{
  ◌≡◌, refl, ap, sym, ◌∙◌, [], ◌∷◌, ◌++◌, append-nil, Bool, true, false, arith, inl, inr,
}
use keybridge.Utils.Machines.{ProcessEvent, dispatch}
use keybridge.Utils.ProcessNotify.{
  Dispatcher, receiving, sending, returned, Notifying, started, behind_send, Step, observed, ended,
  told, sent, took, leaves, Reach, here, next,
}
use keybridge.Utils.ProcessNotify.Sent.{
  pending, IsDispatched, Step-IsDispatched, Reach-IsDispatched,
}

-- A later state in which everything that the dispatcher has received has come to the watcher.
pub record Delivered (s : Notifying) : Type 0 where
  pub later : Notifying
  pub reached : Reach s later
  pub all_taken : later.taken ≡ (dispatch s.received).0
  pub nothing_queued : later.queued ≡ []
  pub nothing_pending : pending later.dispatcher ≡ []
  pub still_watching : later.watching ≡ true

Reach-after : {s t u : Notifying} → Reach s t → Reach t u → Reach s u
Reach-after r here = r
Reach-after r (next r' st) = next (Reach-after r r') st

pending-behind_send : (last : Bool) → pending (behind_send last) ≡ []
pending-behind_send true = refl
pending-behind_send false = refl

taken-all :
    (s : Notifying) (d : Dispatcher)
    → IsDispatched s
    → s.queued ≡ []
    → s.dispatcher ≡ d
    → s.taken ++ pending d ≡ (dispatch s.received).0
taken-all s d i room at =
    ap (λ l. l ++ pending d) (sym (append-nil s.taken))
    ∙ ap (λ q. s.taken ++ q ++ pending d) (sym room)
    ∙ ap (λ d. s.taken ++ s.queued ++ pending d) (sym at)
    ∙ ap (λ r. r.0) (sym i.in_order)

idle-Delivered :
    (s : Notifying) (d : Dispatcher)
    → IsDispatched s
    → s.watching ≡ true
    → s.queued ≡ []
    → s.dispatcher ≡ d
    → pending d ≡ []
    → Delivered s
idle-Delivered s d i on room at none_there = record {
  later = s;
  reached = here;
  all_taken =
      sym (append-nil s.taken) ∙ ap (λ l. s.taken ++ l) (sym none_there) ∙ taken-all s d i room at;
  nothing_queued = room;
  nothing_pending = ap pending at ∙ none_there;
  still_watching = on;
}

-- With an empty channel
empty-Delivered :
    (s : Notifying) (d : Dispatcher)
    → IsDispatched s
    → s.watching ≡ true
    → s.queued ≡ []
    → s.dispatcher ≡ d
    → Delivered s
empty-Delivered s receiving i on room at = idle-Delivered s receiving i on room at refl
empty-Delivered s returned i on room at = idle-Delivered s returned i on room at refl
empty-Delivered s (sending ev last) i on room at = record {
  later = record s { dispatcher = behind_send last; queued = []; taken = s.taken ++ ev ∷ [] };
  reached = next (next here (sent ev last at room refl)) (took ev [] on refl refl);
  all_taken = taken-all s (sending ev last) i room at;
  nothing_queued = refl;
  nothing_pending = pending-behind_send last;
  still_watching = on;
}

-- While the watcher has not returned, from every state the goroutines can go on so that all that the dispatcher
-- has received has come to the watcher, in its order, with nothing left in the channel or being sent.
pub Reach-CanDeliver : (s : Notifying) → Reach started s → s.watching ≡ true → Delivered s
Reach-CanDeliver s r on =
    let i = Reach-IsDispatched s r in
    elim i.at_most_one [
      | inl room ↦ empty-Delivered s s.dispatcher i on room refl
      | inr (ev, one) ↦
          let m : Notifying = record s { queued = []; taken = s.taken ++ ev ∷ [] } in
          let st : Step s m = took ev [] on one refl in
          let d = empty-Delivered m m.dispatcher (Step-IsDispatched s m i st) on refl refl in
          record {
            later = d.later;
            reached = Reach-after (next here st) d.reached;
            all_taken = d.all_taken;
            nothing_queued = d.nothing_queued;
            nothing_pending = d.nothing_pending;
            still_watching = d.still_watching;
          }
    ]

Step-stuck_send :
    (s t : Notifying) (ev waiting : ProcessEvent) (last : Bool)
    → s.watching ≡ false
    → s.dispatcher ≡ sending ev last
    → s.queued ≡ waiting ∷ []
    → Step s t
    → (t.watching ≡ false) × (t.dispatcher ≡ sending ev last) × (t.queued ≡ waiting ∷ [])
Step-stuck_send s t ev waiting last off at full (observed x on free e) =
    absurd (ground (arith, at, free))
Step-stuck_send s t ev waiting last off at full (ended x on e) = ground arith
Step-stuck_send s t ev waiting last off at full (told x holds free e) =
    absurd (ground (arith, at, free))
Step-stuck_send s t ev waiting last off at full (sent x l here_too room e) =
    absurd (ground (arith, full, room))
Step-stuck_send s t ev waiting last off at full (took x rest on waits e) =
    absurd (ground (arith, off, on))
Step-stuck_send s t ev waiting last off at full (leaves on e) = absurd (ground (arith, off, on))

-- When the watcher has returned with an event in the channel, and the dispatcher is sending the next one, that
-- may be the error of its own end, then it stands there in every further interleaving, with the channel full.
pub abandoned_send_stuck :
    (s t : Notifying) (ev waiting : ProcessEvent) (last : Bool)
    → s.watching ≡ false
    → s.dispatcher ≡ sending ev last
    → s.queued ≡ waiting ∷ []
    → Reach s t
    → (t.watching ≡ false) × (t.dispatcher ≡ sending ev last) × (t.queued ≡ waiting ∷ [])
abandoned_send_stuck s t ev waiting last off at full here = (off, at, full)
abandoned_send_stuck s t ev waiting last off at full (next {t = m} r st) =
    let (off', at', full') = abandoned_send_stuck s m ev waiting last off at full r in
    Step-stuck_send m t ev waiting last off' at' full' st
