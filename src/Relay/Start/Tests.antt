-- ===== src/Relay/Start/Tests.antt =====
-- Runs and instances of the theorems about the beginning of a relay.
use keybridge.Base.{◌≡◌, refl, [], ◌∷◌, true, false}
use keybridge.Relay.{not_exist, connected, failed, dial_pipe_with_poll, Flags}
use keybridge.Relay.Start.{
  Options, options, misplaced, usage, connecting, connected_log, exited, relaying, run_relay,
}
use keybridge.Relay.Start.Begin.{Begins, run_relay-Begins}

abbrev flags : Flags
flags = record {
  verbose = true;
  close_write = true;
  close_on_pipe_eof = false;
  close_on_stdin_eof = true;
}

-- "-v" behind the path is no flag.
late_flag_run :
    run_relay
      (options
        (record { poll = true; flags = record flags { verbose = false } })
        ((112 ∷ []) ∷ (120 ∷ []) ∷ (45 ∷ 118 ∷ []) ∷ []))
      []
    ≡ exited 1 (misplaced (45 ∷ 118 ∷ []) ∷ usage ∷ [])
unfolding run_relay
late_flag_run = refl

abbrev polling : Options
polling = record { poll = true; flags = flags }

pipe_appears-Begins :
    Begins polling
      ((112 ∷ []) ∷ [])
      ((λ path. failed not_exist) ∷ (λ path. connected 7) ∷ [])
      (relaying polling 7 (connecting (112 ∷ []) ∷ connected_log ∷ []))
unfolding run_relay dial_pipe_with_poll
pipe_appears-Begins =
    run_relay-Begins polling ((112 ∷ []) ∷ [])
      ((λ path. failed not_exist) ∷ (λ path. connected 7) ∷ [])
