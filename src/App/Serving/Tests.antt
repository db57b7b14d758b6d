-- ===== src/App/Serving/Tests.antt =====
-- Runs and instances of the theorems about the accept loops.
use keybridge.Base.{refl, [], ◌∷◌, Bool, true, false, none}
use keybridge.Base.Outcome.{Error, eof, ok, err}
use keybridge.App.Serving.{
  returned, Serving, listening_first, accepted, failed, cancel, noticed, handled, left, Reach, here,
  next,
}
use keybridge.App.Serving.Loops.{Checks, named_pipe_app, vsock_app, loop_of, named_pipe, vsock}
use keybridge.App.Serving.Ends.{IsOrderly, Reach-IsOrderly}

abbrev is_eof : Error → Bool
is_eof eof = true
is_eof e = false

-- The listener of the named pipe says `eof` when it is closed; Xshell's second client fails.
abbrev checks : Checks
checks = record {
  is_listener_closed = is_eof;
  xshell_handshake = λ conn. ok tt;
  cygwin_handshake = λ conn. err eof;
  same_user = λ conn. ok true;
  window_destroyed = false;
}

-- One client is served, and the context is cancelled while it is.
abbrev cancelled : Serving
cancelled = record listening_first { handlers = 1; served = 7 ∷ []; cancelled = true }

abbrev ended : Serving
ended = record {
  phase = returned none;
  handlers = 0;
  finished = 1;
  served = 7 ∷ [];
  refused = [];
  errors = eof ∷ [];
  cancelled = true;
  is_open = false;
}

pipe_reached : Reach (loop_of named_pipe_app checks) listening_first ended
unfolding loop_of named_pipe
pipe_reached =
    next
      (next
        (next
          (next (next (next here (accepted 7 refl refl refl)) (cancel refl refl))
            (noticed refl refl refl))
          (failed eof refl refl refl))
        (handled 0 refl refl))
      (left none refl refl refl)

ended-IsOrderly : IsOrderly named_pipe_app checks ended
ended-IsOrderly = Reach-IsOrderly named_pipe_app checks ended pipe_reached

vsock_reached : Reach (loop_of vsock_app checks) listening_first cancelled
unfolding loop_of vsock
vsock_reached = next (next here (accepted 7 refl refl refl)) (cancel refl refl)
