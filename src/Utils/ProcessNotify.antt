-- ===== src/Utils/ProcessNotify.antt =====
-- utils/processnotify.go from Start on, as wsl2Watcher of app/vsock.go uses it: the goroutine of
-- StartNotifications, the dispatcher, and the watcher that takes the events from a channel with room for one
-- (the dispatcher's own steps are those of Utils/Machines). What WMI observes, and when its notifications end, is open.
pub mod Sent
pub mod Delivery
mod Tests
use keybridge.Base.{◌≡◌, List, [], ◌∷◌, ◌++◌, Bool, true, false, Option, none, some}
use keybridge.Base.Outcome.{Error}
use keybridge.Utils.Machines.{
  WmiProcessEvent, ProcessEvent, process_event, error_event, Received, event, done,
}

-- Where `dispatch` stands: at its `select`, at `s.ch <- event`, behind which it returns if that is the last one,
-- or at its end.
pub data Dispatcher : Type 0 where
  receiving : Dispatcher
  sending : ProcessEvent → Bool → Dispatcher
  returned : Dispatcher

-- `listening` while StartNotifications runs; `result` is what the channel `done` holds, and `queued` what `ch`
-- holds. `received` is what `dispatch` has received and `taken` what the watcher has taken, oldest first.
pub record Notifying : Type 0 where
  pub listening : Bool
  pub stopped : Bool
  pub result : Option (Option Error)
  pub dispatcher : Dispatcher
  pub received : List Received
  pub queued : List ProcessEvent
  pub taken : List ProcessEvent
  pub watching : Bool

-- Behind `NewProcessNotify` and `Start`
abbrev pub started : Notifying
started = record {
  listening = true;
  stopped = false;
  result = none;
  dispatcher = receiving;
  received = [];
  queued = [];
  taken = [];
  watching = true;
}

-- Behind a send.
abbrev pub behind_send : Bool → Dispatcher
behind_send true = returned
behind_send false = receiving

-- A step of one of the goroutines. The watcher's last one is its return, with its deferred `Stop`.
pub data Step (s t : Notifying) : Type 0 where
  observed :
      (ev : WmiProcessEvent)
      → s.listening ≡ true
      → s.dispatcher ≡ receiving
      → t ≡ record s {
        dispatcher = sending (process_event ev) false;
        received = s.received ++ event ev ∷ [];
      }
      → Step s t
  ended :
      (e : Option Error)
      → s.listening ≡ true
      → t ≡ record s { listening = false; result = some e }
      → Step s t
  told :
      (e : Option Error)
      → s.result ≡ some e
      → s.dispatcher ≡ receiving
      → t ≡ record s {
        result = none;
        dispatcher = sending (error_event e) true;
        received = s.received ++ done e ∷ [];
      }
      → Step s t
  sent :
      (ev : ProcessEvent) (last : Bool)
      → s.dispatcher ≡ sending ev last
      → s.queued ≡ []
      → t ≡ record s { dispatcher = behind_send last; queued = ev ∷ [] }
      → Step s t
  took :
      (ev : ProcessEvent) (rest : List ProcessEvent)
      → s.watching ≡ true
      → s.queued ≡ ev ∷ rest
      → t ≡ record s { queued = rest; taken = s.taken ++ ev ∷ [] }
      → Step s t
  leaves : s.watching ≡ true → t ≡ record s { watching = false; stopped = true } → Step s t

-- Any interleaving of them.
pub data Reach (s : Notifying) : Notifying → Type 0 where
  here : Reach s s
  next : {t u : Notifying} → Reach s t → Step t u → Reach s u
