-- ===== src/Relay/Exits.antt =====
-- Why the relay ends, over every interleaving of its two goroutines.
use keybridge.Base.Outcome.{Error}
use keybridge.Base.{
  append_assoc, [], List, [], ◌∷◌, ◌++◌, ℕ, ◌≡◌, refl, Bool, true, false, ◌&&◌, Option, none, some,
  arith, subst, sym, ap, ◌∙◌, inl, inr, ◌⊎◌,
}
use keybridge.Relay.Logs.{Step-Adds}
use keybridge.Relay.{
  Flags, StdinSide, PipeSide, signalled, done, waiting, Relay, connected_relay, signal_end,
  finish_stdin, finish_pipe, Step, copy_in, end_in, fail_in, signal, finish_in, copy_out, end_out,
  fail_out, finish_out, stdin_done, drain_timeout, exit_in, exit_out, Entry, stdin_failed,
  pipe_failed, Reach, here, next,
}

-- Whether the goroutine has passed the -s option.
abbrev pub is_past_signal : StdinSide → Bool
is_past_signal StdinSide.copying = false
is_past_signal StdinSide.ended = false
is_past_signal signalled = true
is_past_signal done = true
is_past_signal StdinSide.failing = false

abbrev pub is_waiting : PipeSide → Bool
is_waiting PipeSide.copying = false
is_waiting PipeSide.ended = false
is_waiting waiting = true
is_waiting PipeSide.failing = false

-- Such an error was written; the other goroutine may have written behind it.
abbrev pub Logs : (Error → Entry) → List Entry → Type 0
Logs entry log =
    (before : List Entry) × (e : Error) × (behind : List Entry) × (log ≡ before ++ entry e ∷ behind)

-- What the exit code says of the two sides.
abbrev pub Ends : Flags → Relay → Option ℕ → Type 0
Ends flags s none = Unit {0}
Ends flags s (some code) =
    ((code ≡ 1)
      × (((s.stdin_side ≡ StdinSide.failing) × Logs stdin_failed s.log)
          ⊎ ((s.pipe_side ≡ PipeSide.failing) × Logs pipe_failed s.log)))
    ⊎ ((code ≡ 0) × (flags.close_on_pipe_eof ≡ true) × (s.pipe_side ≡ PipeSide.ended))
    ⊎ ((code ≡ 0) × (flags.close_on_stdin_eof ≡ true) × (s.stdin_side ≡ signalled))
    ⊎ ((code ≡ 0) × (s.pipe_side ≡ waiting) × (s.stdin_side ≡ done))
    ⊎ ((code ≡ 0) × (s.pipe_side ≡ waiting) × (s.drain_timed_out ≡ true))

-- What holds of a relay at every moment: CloseWrite has been called exactly if the goroutine for the
-- standard input is past the -s option, the option was given and the connection has a CloseWrite; the
-- standard output is closed exactly while the main goroutine waits at its end.
pub record IsSound (flags : Flags) (is_close_writer : Bool) (s : Relay) : Type 0 where
  pub signals :
      s.end_signalled ≡ (is_past_signal s.stdin_side && (flags.close_write && is_close_writer))
  pub closes : s.stdout_closed ≡ is_waiting s.pipe_side
  pub waits : s.pipe_side ≡ waiting → flags.close_on_pipe_eof ≡ false
  pub finishes : s.stdin_side ≡ done → flags.close_on_stdin_eof ≡ false
  pub fails_in : s.stdin_side ≡ StdinSide.failing → Logs stdin_failed s.log
  pub fails_out : s.pipe_side ≡ PipeSide.failing → Logs pipe_failed s.log
  pub ends : Ends flags s s.exit_code

Logs-append :
    (entry : Error → Entry) (log more : List Entry) → Logs entry log → Logs entry (log ++ more)
Logs-append entry log more (before, e, behind, same) = (
  before,
  e,
  behind ++ more,
  ap (λ l. l ++ more) same ∙ append_assoc before (entry e ∷ behind) more,
)

-- A step keeps what the log has.
Step-Logs :
    (flags : Flags) (w : Bool) (s t : Relay) (entry : Error → Entry)
    → Step flags w s t
    → Logs entry s.log
    → Logs entry t.log
Step-Logs flags w s t entry st h =
    let (more, e, quiet) = Step-Adds flags w s t st in
    subst (Logs entry) (sym e) (Logs-append entry s.log more h)

-- A goroutine is in `log.Fatalln` behind a step if it was before, or has written its error by the step.
failing_in :
    (flags : Flags) (w : Bool) (s t : Relay)
    → Step flags w s t
    → t.stdin_side ≡ StdinSide.failing
    → (s.stdin_side ≡ StdinSide.failing) ⊎ Logs stdin_failed t.log
unfolding signal_end finish_stdin finish_pipe
failing_in flags w s t (copy_in chunk n c e) at = ground arith
failing_in flags w s t (end_in n c e) at = absurd (ground arith)
failing_in flags w s t (fail_in x n c e) at = inr (s.log, x, [], ap (λ r. r.log) e)
failing_in flags w s t (signal x n c e) at = absurd (ground arith)
failing_in flags w s t (finish_in n c e) at = absurd (ground arith)
failing_in flags w s t (copy_out chunk n c e) at = inl (ground arith)
failing_in flags w s t (end_out n c e) at = inl (ground arith)
failing_in flags w s t (fail_out x n c e) at = inl (ground arith)
failing_in flags w s t (finish_out x n c e) at = inl (ground arith)
failing_in flags w s t (exit_in n c e) at = inl c
failing_in flags w s t (exit_out n c e) at = inl (ground arith)
failing_in flags w s t (stdin_done n c d e) at = inl (ground arith)
failing_in flags w s t (drain_timeout n c e) at = inl (ground arith)

failing_out :
    (flags : Flags) (w : Bool) (s t : Relay)
    → Step flags w s t
    → t.pipe_side ≡ PipeSide.failing
    → (s.pipe_side ≡ PipeSide.failing) ⊎ Logs pipe_failed t.log
unfolding signal_end finish_stdin finish_pipe
failing_out flags w s t (copy_in chunk n c e) at = inl (ground arith)
failing_out flags w s t (end_in n c e) at = inl (ground arith)
failing_out flags w s t (fail_in x n c e) at = inl (ground arith)
failing_out flags w s t (signal x n c e) at = inl (ground arith)
failing_out flags w s t (finish_in n c e) at = inl (ground arith)
failing_out flags w s t (copy_out chunk n c e) at = absurd (ground arith)
failing_out flags w s t (end_out n c e) at = absurd (ground arith)
failing_out flags w s t (fail_out x n c e) at = inr (s.log, x, [], ap (λ r. r.log) e)
failing_out flags w s t (finish_out x n c e) at = absurd (ground arith)
failing_out flags w s t (exit_in n c e) at = inl (ground arith)
failing_out flags w s t (exit_out n c e) at = inl c
failing_out flags w s t (stdin_done n c d e) at = inl (ground arith)
failing_out flags w s t (drain_timeout n c e) at = inl (ground arith)

-- What the exit code says behind a step, which only a process that runs takes.
Step-Ends :
    (flags : Flags) (w : Bool) (s t : Relay)
    → Step flags w s t
    → IsSound flags w s
    → Ends flags t t.exit_code
unfolding signal_end finish_stdin finish_pipe
Step-Ends flags w s t (copy_in chunk n c e) i = ground arith
Step-Ends flags w s t (end_in n c e) i = ground arith
Step-Ends flags w s t (fail_in x n c e) i = ground arith
Step-Ends flags w s t (signal x n c e) i = ground arith
Step-Ends flags w s t (finish_in n c e) i = ground arith
Step-Ends flags w s t (copy_out chunk n c e) i = ground arith
Step-Ends flags w s t (end_out n c e) i = ground arith
Step-Ends flags w s t (fail_out x n c e) i = ground arith
Step-Ends flags w s t (finish_out x n c e) i = ground arith
Step-Ends flags w s t (exit_in n c e) i =
    subst (λ (r : Relay). Ends flags r r.exit_code) (sym e) (inl (refl, inl (c, i.fails_in c)))
Step-Ends flags w s t (exit_out n c e) i =
    subst (λ (r : Relay). Ends flags r r.exit_code) (sym e) (inl (refl, inr (c, i.fails_out c)))
Step-Ends flags w s t (stdin_done n c d e) i = ground arith
Step-Ends flags w s t (drain_timeout n c e) i = ground arith

-- The sides, by themselves.
abbrev Sides : Flags → Bool → Relay → Type 0
Sides flags w s =
    (s.end_signalled ≡ (is_past_signal s.stdin_side && (flags.close_write && w)))
    × (s.stdout_closed ≡ is_waiting s.pipe_side)
    × (s.pipe_side ≡ waiting → flags.close_on_pipe_eof ≡ false)
    × (s.stdin_side ≡ done → flags.close_on_stdin_eof ≡ false)

Step-Sides :
    (flags : Flags) (w : Bool) (s t : Relay) → Step flags w s t → Sides flags w s → Sides flags w t
unfolding signal_end finish_stdin finish_pipe
Step-Sides flags w s t (copy_in chunk n c e) i = ground arith
Step-Sides flags w s t (end_in n c e) i = ground arith
Step-Sides flags w s t (fail_in x n c e) i = ground arith
Step-Sides flags w s t (signal x n c e) i = ground arith
Step-Sides flags w s t (finish_in n c e) i = ground arith
Step-Sides flags w s t (copy_out chunk n c e) i = ground arith
Step-Sides flags w s t (end_out n c e) i = ground arith
Step-Sides flags w s t (fail_out x n c e) i = ground arith
Step-Sides flags w s t (finish_out x n c e) i = ground arith
Step-Sides flags w s t (exit_in n c e) i = ground arith
Step-Sides flags w s t (exit_out n c e) i = ground arith
Step-Sides flags w s t (stdin_done n c d e) i = ground arith
Step-Sides flags w s t (drain_timeout n c e) i = ground arith

Step-IsSound :
    (flags : Flags) (is_close_writer : Bool) (s t : Relay)
    → Step flags is_close_writer s t
    → IsSound flags is_close_writer s
    → IsSound flags is_close_writer t
Step-IsSound flags w s t st i =
    let (signals, closes, waits, finishes) =
      Step-Sides flags w s t st (i.signals, i.closes, i.waits, i.finishes) in
    record {
      signals = signals;
      closes = closes;
      waits = waits;
      finishes = finishes;
      fails_in = λ at. elim (failing_in flags w s t st at) [
        | inl before ↦ Step-Logs flags w s t stdin_failed st (i.fails_in before)
        | inr written ↦ written
      ];
      fails_out = λ at. elim (failing_out flags w s t st at) [
        | inl before ↦ Step-Logs flags w s t pipe_failed st (i.fails_out before)
        | inr written ↦ written
      ];
      ends = Step-Ends flags w s t st i;
    }

-- At every moment of every interleaving, `IsSound` holds. A process that has exited by 0 did so since the
-- pipe ended and -ep was given, since the standard input ended and -ei was given, since both sides
-- ended, or since the main goroutine had waited its time for the standard input; by 1, since one of
-- the copies failed, and the error of this copy was written before, maybe not as the last. With -s and a pipe
-- that can be told, CloseWrite is called before an exit that -ei asks for.
pub Reach-IsSound :
    (flags : Flags) (is_close_writer : Bool) (t : Relay)
    → Reach flags is_close_writer connected_relay t
    → IsSound flags is_close_writer t
Reach-IsSound flags w t here = record {
  signals = refl;
  closes = refl;
  waits = λ h. ground arith;
  finishes = λ h. ground arith;
  fails_in = λ h. absurd (ground arith);
  fails_out = λ h. absurd (ground arith);
  ends = tt;
}
Reach-IsSound flags w t (next {t = s} r st) =
    Step-IsSound flags w s t st (Reach-IsSound flags w s r)
