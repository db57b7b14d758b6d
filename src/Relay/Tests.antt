-- ===== src/Relay/Tests.antt =====
-- Runs and instances of the theorems about relay.go.
use keybridge.Base.{◌≡◌, refl, List, [], ◌∷◌, true, false, some, none}
use keybridge.Base.Outcome.{eof}
use keybridge.Relay.{
  not_exist, busy, refused, Dialled, connected, failed, dial_pipe_with_poll, Flags, StdinSide,
  Relay, connected_relay, signal_end, finish_stdin, finish_pipe, copy_in, end_in, stdin_finished,
  signal, finish_in, Reach, here, next,
}
use keybridge.Relay.Exits.{IsSound, Reach-IsSound}

abbrev attempts : List Dialled
attempts = failed not_exist ∷ failed busy ∷ connected 7 ∷ failed (refused eof) ∷ []

dial_run : dial_pipe_with_poll true attempts ≡ some (connected 7)
unfolding dial_pipe_with_poll
dial_run = refl

no_poll_run : dial_pipe_with_poll false attempts ≡ some (failed not_exist)
unfolding dial_pipe_with_poll
no_poll_run = refl

-- -s and -ei
abbrev flags : Flags
flags = record {
  verbose = true;
  close_write = true;
  close_on_pipe_eof = false;
  close_on_stdin_eof = true;
}

abbrev copied_in : Relay
copied_in = record connected_relay { to_pipe = 1 ∷ 2 ∷ [] }

abbrev stdin_ended : Relay
stdin_ended = record copied_in { stdin_side = StdinSide.ended; log = stdin_finished ∷ [] }

abbrev end_told : Relay
end_told = record stdin_ended { stdin_side = StdinSide.signalled; end_signalled = true }

abbrev exited : Relay
exited = record end_told { exit_code = some 0 }

exit_reached : Reach flags true connected_relay exited
unfolding signal_end finish_stdin
exit_reached =
    next
      (next (next (next here (copy_in (1 ∷ 2 ∷ []) refl refl refl)) (end_in refl refl refl))
        (signal none refl refl refl))
      (finish_in refl refl refl)

exit-IsSound : IsSound flags true exited
exit-IsSound = Reach-IsSound flags true exited exit_reached

finish_run : (finish_pipe flags none connected_relay).stdout_closed ≡ true
unfolding finish_pipe
finish_run = refl
