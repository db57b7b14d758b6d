-- ===== src/App/VSock/Watch.antt =====
-- app/vsock.go: the whole of wsl2Watcher, with the process notifications that wake it. What the machines are,
-- and how listening ends, is open in each round.
pub mod Ended
use keybridge.Base.{ℕ, List, [], ◌∷◌, Bool, true, false, Option, none, some}
use keybridge.Base.Outcome.{Error}
use keybridge.App.VSock.{Watcher, idle, round}
use keybridge.App.VSock.Setup.{poll_seconds}

-- What comes out of the `select` behind a round: the end of the context, a process event, or the timeout.
pub data Wake : Type 0 where
  cancelled : Wake
  notified : ℕ → Wake
  timed_out : Wake

pub record Turn : Type 0 where
  pub listen : ℕ → Option ℕ
  pub vmids : List ℕ
  pub wake : Wake

-- The watcher's goroutine: whether it has started the notifications and has not stopped them, the seconds of
-- its timeout, and whether it has returned.
pub record Watch : Type 0 where
  pub watcher : Watcher
  pub notifying : Bool
  pub seconds : ℕ
  pub returned : Bool

-- `NewProcessNotify` with `pn.Start()`, by its error
pub begin : Option Error → Watch
unfolding poll_seconds
begin none = record {
  watcher = idle;
  notifying = true;
  seconds = poll_seconds none;
  returned = false;
}
begin (some e) = record {
  watcher = idle;
  notifying = false;
  seconds = poll_seconds (some e);
  returned = false;
}

-- `return`, with the deferred `pn.Stop()` if the notifications were started; the workers stay as they are.
pub leave : Watch → Watch
leave s = record s { notifying = false; returned = true }

wait : Wake → Watch → (Watch → Watch) → Watch
unfolding leave
wait cancelled s more = leave s
wait (notified event) s more = more s
wait timed_out s more = more s

watch_loop : List Turn → Watch → Watch
unfolding wait
watch_loop [] s = s
watch_loop (r ∷ rs) s =
    wait r.wake (record s { watcher = round r.listen r.vmids s.watcher }) (watch_loop rs)

-- `wsl2Watcher`, over the rounds that are to come
pub wsl2_watcher : Option Error → List Turn → Watch
unfolding watch_loop begin
wsl2_watcher new_error turns = watch_loop turns (begin new_error)
