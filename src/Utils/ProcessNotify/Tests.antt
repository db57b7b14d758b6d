-- ===== src/Utils/ProcessNotify/Tests.antt =====
-- Runs and instances of the theorems about the process notifications.
use keybridge.Base.{refl, [], ◌∷◌, true, false, some}
use keybridge.Base.Outcome.{external}
use keybridge.Utils.Machines.{WmiProcessEvent, process_event, error_event, event, done}
use keybridge.Utils.ProcessNotify.{
  sending, returned, Notifying, started, observed, ended, told, sent, took, leaves, Reach, here,
  next,
}
use keybridge.Utils.ProcessNotify.Sent.{IsDispatched, Reach-IsDispatched}

abbrev appeared : WmiProcessEvent
appeared = record {
  time_stamp = 1;
  class = "__InstanceCreationEvent";
  process_id = 40;
  name = 119 ∷ [];
  command_line = 104 ∷ [];
}

-- A process was seen, the notifications have failed, and the watcher has taken nothing yet.
abbrev failed : Notifying
failed = record started {
  listening = false;
  dispatcher = sending (error_event (some (external 5))) true;
  received = event appeared ∷ done (some (external 5)) ∷ [];
  queued = process_event appeared ∷ [];
}

failed_reached : Reach started failed
failed_reached =
    next
      (next
        (next (next here (observed appeared refl refl refl))
          (sent (process_event appeared) false refl refl refl))
        (ended (some (external 5)) refl refl))
      (told (some (external 5)) refl refl refl)

failed-IsDispatched : IsDispatched failed
failed-IsDispatched = Reach-IsDispatched failed failed_reached

-- The watcher returns there.
abbrev abandoned : Notifying
abandoned = record failed { watching = false; stopped = true }

abandoned_reached : Reach started abandoned
abandoned_reached = next failed_reached (leaves refl refl)

-- It takes both events.
abbrev both_taken : Notifying
both_taken = record failed {
  dispatcher = returned;
  queued = [];
  taken = process_event appeared ∷ error_event (some (external 5)) ∷ [];
}

both_taken_reached : Reach started both_taken
both_taken_reached =
    next
      (next (next failed_reached (took (process_event appeared) [] refl refl refl))
        (sent (error_event (some (external 5))) true refl refl refl))
      (took (error_event (some (external 5))) [] refl refl refl)
