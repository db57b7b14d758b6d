-- ===== src/Relay.antt =====
-- relay.go: the command that connects its standard input and output to a named pipe. Dialling and io.Copy
-- are other code: what they return, and when, is open.
pub mod Dial
pub mod Start
pub mod Exits
pub mod Logs
pub mod Progress
mod Tests
use keybridge.Base.{
  ℕ, ◌≡◌, List, [], ◌∷◌, ◌++◌, Bool, true, false, ◌&&◌, Option, none, some, if◌then◌else◌,
}
use keybridge.Base.Outcome.{Error}

-- The errors of `winio.DialPipe` that the code tells apart: the pipe is not there (`os.IsNotExist`), it
-- was busy all the time (`winio.ErrTimeout`), or another one.
pub data DialError : Type 0 where
  not_exist busy : DialError
  refused : Error → DialError

-- `os.IsNotExist(err) || err == winio.ErrTimeout`
pub is_transient : DialError → Bool
is_transient not_exist = true
is_transient busy = true
is_transient (refused e) = false

-- What one attempt returns: a connection or an error.
pub data Dialled : Type 0 where
  connected : ℕ → Dialled
  failed : DialError → Dialled

-- The loop of `dialPipeWithPoll` over what its attempts return; `none` when it is still at it after them.
pub dial_pipe_with_poll : Bool → List Dialled → Option Dialled
unfolding is_transient
dial_pipe_with_poll poll [] = none
dial_pipe_with_poll poll (connected conn ∷ attempts) = some (connected conn)
dial_pipe_with_poll poll (failed e ∷ attempts) =
    let rest = dial_pipe_with_poll poll attempts in
    if poll && is_transient e then rest else some (failed e)

-- The flags -v, -s, -ep and -ei.
pub record Flags : Type 0 where
  pub verbose : Bool
  pub close_write : Bool
  pub close_on_pipe_eof : Bool
  pub close_on_stdin_eof : Bool

-- Where the goroutine for the standard input stands: in its copy, behind it, behind the -s option, and
-- at its end, with `stdinDone` closed; or between the write and the exit of `log.Fatalln`.
pub data StdinSide : Type 0 where
  copying ended signalled done failing : StdinSide

-- Where the main goroutine stands: in its copy, behind it, in the `select` at its end, and in
-- `log.Fatalln`.
pub data PipeSide : Type 0 where
  copying ended waiting failing : PipeSide

-- What is written to the standard error: the errors on which the process ends, the warning of -s, and what -v
-- asks for.
pub data Entry : Type 0 where
  stdin_failed pipe_failed : Error → Entry
  no_signal : Entry
  stdin_finished pipe_finished : Entry
  signal_failed stdout_failed : Error → Entry
  still_open : Entry

-- `logf`
abbrev pub logf : Bool → Entry → List Entry
logf verbose entry = if verbose then entry ∷ [] else []

abbrev pub logf_error : Bool → (Error → Entry) → Option Error → List Entry
logf_error verbose entry none = []
logf_error verbose entry (some e) = logf verbose (entry e)

-- The process once it is connected. `to_pipe` and `to_stdout` are what the copies have written,
-- `end_signalled` whether CloseWrite was called, `log` what was written to the standard error, oldest first;
-- `exit_code` is set when the process ends, by `os.Exit`, `log.Fatalln` or the end of `main`.
pub record Relay : Type 0 where
  pub stdin_side : StdinSide
  pub pipe_side : PipeSide
  pub to_pipe : List ℕ
  pub to_stdout : List ℕ
  pub end_signalled : Bool
  pub log : List Entry
  pub stdout_closed : Bool
  pub drain_timed_out : Bool
  pub exit_code : Option ℕ

abbrev pub connected_relay : Relay
connected_relay = record {
  stdin_side = StdinSide.copying;
  pipe_side = PipeSide.copying;
  to_pipe = [];
  to_stdout = [];
  end_signalled = false;
  log = [];
  stdout_closed = false;
  drain_timed_out = false;
  exit_code = none;
}

-- `if *closeWrite { … }`, by whether the connection is a `closeWriter`, and by the error of `CloseWrite`.
pub signal_end : Flags → Bool → Option Error → Relay → Relay
signal_end flags is_close_writer e s =
    if flags.close_write
    then if is_close_writer
      then record s {
        stdin_side = signalled;
        end_signalled = true;
        log = s.log ++ logf_error flags.verbose signal_failed e;
      }
      else record s { stdin_side = signalled; log = s.log ++ no_signal ∷ [] }
    else record s { stdin_side = signalled }

-- `if *closeOnStdinEOF { os.Exit(0) }`, and else `close(stdinDone)`
pub finish_stdin : Flags → Relay → Relay
finish_stdin flags s =
    if flags.close_on_stdin_eof
    then record s { exit_code = some 0 }
    else record s { stdin_side = done }

-- `if *closeOnPipeEOF { os.Exit(0) }`, and else `os.Stdout.Close()`, by its error
pub finish_pipe : Flags → Option Error → Relay → Relay
finish_pipe flags e s =
    if flags.close_on_pipe_eof then record s { exit_code = some 0 } else record s {
      pipe_side = waiting;
      stdout_closed = true;
      log = s.log ++ logf_error flags.verbose stdout_failed e;
    }

-- One step of either goroutine of a process that runs.
pub data Step (flags : Flags) (is_close_writer : Bool) (s t : Relay) : Type 0 where
  copy_in :
      (chunk : List ℕ)
      → s.exit_code ≡ none
      → s.stdin_side ≡ StdinSide.copying
      → t ≡ record s { to_pipe = s.to_pipe ++ chunk }
      → Step flags is_close_writer s t
  end_in :
      s.exit_code ≡ none
      → s.stdin_side ≡ StdinSide.copying
      → t ≡ record s {
        stdin_side = StdinSide.ended;
        log = s.log ++ logf flags.verbose stdin_finished;
      }
      → Step flags is_close_writer s t
  fail_in :
      (x : Error)
      → s.exit_code ≡ none
      → s.stdin_side ≡ StdinSide.copying
      → t ≡ record s { stdin_side = StdinSide.failing; log = s.log ++ stdin_failed x ∷ [] }
      → Step flags is_close_writer s t
  signal :
      (x : Option Error)
      → s.exit_code ≡ none
      → s.stdin_side ≡ StdinSide.ended
      → t ≡ signal_end flags is_close_writer x s
      → Step flags is_close_writer s t
  finish_in :
      s.exit_code ≡ none
      → s.stdin_side ≡ signalled
      → t ≡ finish_stdin flags s
      → Step flags is_close_writer s t
  copy_out :
      (chunk : List ℕ)
      → s.exit_code ≡ none
      → s.pipe_side ≡ PipeSide.copying
      → t ≡ record s { to_stdout = s.to_stdout ++ chunk }
      → Step flags is_close_writer s t
  end_out :
      s.exit_code ≡ none
      → s.pipe_side ≡ PipeSide.copying
      → t ≡ record s { pipe_side = PipeSide.ended; log = s.log ++ logf flags.verbose pipe_finished }
      → Step flags is_close_writer s t
  fail_out :
      (x : Error)
      → s.exit_code ≡ none
      → s.pipe_side ≡ PipeSide.copying
      → t ≡ record s { pipe_side = PipeSide.failing; log = s.log ++ pipe_failed x ∷ [] }
      → Step flags is_close_writer s t
  finish_out :
      (x : Option Error)
      → s.exit_code ≡ none
      → s.pipe_side ≡ PipeSide.ended
      → t ≡ finish_pipe flags x s
      → Step flags is_close_writer s t
  exit_in :
      s.exit_code ≡ none
      → s.stdin_side ≡ StdinSide.failing
      → t ≡ record s { exit_code = some 1 }
      → Step flags is_close_writer s t
  exit_out :
      s.exit_code ≡ none
      → s.pipe_side ≡ PipeSide.failing
      → t ≡ record s { exit_code = some 1 }
      → Step flags is_close_writer s t
  stdin_done :
      s.exit_code ≡ none
      → s.pipe_side ≡ waiting
      → s.stdin_side ≡ done
      → t ≡ record s { exit_code = some 0 }
      → Step flags is_close_writer s t
  drain_timeout :
      s.exit_code ≡ none
      → s.pipe_side ≡ waiting
      → t ≡ record s {
        exit_code = some 0;
        drain_timed_out = true;
        log = s.log ++ logf flags.verbose still_open;
      }
      → Step flags is_close_writer s t

-- Any interleaving of the two goroutines.
pub data Reach (flags : Flags) (is_close_writer : Bool) (s : Relay) : Relay → Type 0 where
  here : Reach flags is_close_writer s s
  next :
      {t u : Relay}
      → Reach flags is_close_writer s t
      → Step flags is_close_writer t u
      → Reach flags is_close_writer s u
