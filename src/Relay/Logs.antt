-- ===== src/Relay/Logs.antt =====
-- What the relay writes to the standard error.
use keybridge.Base.Outcome.{Error}
use keybridge.Base.{
  ◌≡◌, refl, ap, sym, ◌∙◌, subst, append-nil, All, All-append, List, [], ◌∷◌, ◌++◌, Bool, true,
  false, Option, none, some, arith,
}
use keybridge.Relay.{
  Flags, Relay, connected_relay, signal_end, finish_stdin, finish_pipe, Step, copy_in, end_in,
  fail_in, signal, finish_in, copy_out, end_out, fail_out, finish_out, stdin_done, drain_timeout,
  exit_in, exit_out, Entry, stdin_failed, pipe_failed, no_signal, stdin_finished, pipe_finished,
  signal_failed, stdout_failed, still_open, logf, logf_error, Reach, here, next,
}

-- Whether an entry is written only with -v.
abbrev pub is_verbose : Entry → Bool
is_verbose (stdin_failed e) = false
is_verbose (pipe_failed e) = false
is_verbose no_signal = false
is_verbose stdin_finished = true
is_verbose pipe_finished = true
is_verbose (signal_failed e) = true
is_verbose (stdout_failed e) = true
is_verbose still_open = true

-- Without -v no such entry is there.
abbrev pub IsQuiet : Flags → List Entry → Type 0
IsQuiet flags log = flags.verbose ≡ false → All (λ entry. is_verbose entry ≡ false) log

-- A step adds to the log.
abbrev pub Adds : Flags → List Entry → List Entry → Type 0
Adds flags log log' = (more : List Entry) × (log' ≡ log ++ more) × IsQuiet flags more

kept-Adds : (flags : Flags) (log log' : List Entry) → log' ≡ log → Adds flags log log'
kept-Adds flags log log' e = ([], e ∙ sym (append-nil log), λ off. tt)

logf-IsQuiet :
    (flags : Flags) (b : Bool) (entry : Entry) → flags.verbose ≡ b → IsQuiet flags (logf b entry)
logf-IsQuiet flags true entry e off = absurd (ground (arith, e, off))
logf-IsQuiet flags false entry e off = tt

logf_error-IsQuiet :
    (flags : Flags) (entry : Error → Entry) (x : Option Error)
    → IsQuiet flags (logf_error flags.verbose entry x)
logf_error-IsQuiet flags entry none off = tt
logf_error-IsQuiet flags entry (some x) off = logf-IsQuiet flags flags.verbose (entry x) refl off

logf-Adds :
    (flags : Flags) (log log' : List Entry) (entry : Entry)
    → log' ≡ log ++ logf flags.verbose entry
    → Adds flags log log'
logf-Adds flags log log' entry e =
    (logf flags.verbose entry, e, logf-IsQuiet flags flags.verbose entry refl)

signal_end-Adds :
    (flags : Flags) (s : Relay) (x : Option Error) (told w : Bool)
    → flags.close_write ≡ told
    → Adds flags s.log (signal_end flags w x s).log
unfolding signal_end
signal_end-Adds flags s x false w e = kept-Adds flags s.log (signal_end flags w x s).log (rw e refl)
signal_end-Adds flags s x true true e =
    (logf_error flags.verbose signal_failed x, rw e refl, logf_error-IsQuiet flags signal_failed x)
signal_end-Adds flags s x true false e = (no_signal ∷ [], rw e refl, λ off. (refl, tt))

finish_pipe-Adds :
    (flags : Flags) (s : Relay) (x : Option Error) (ep : Bool)
    → flags.close_on_pipe_eof ≡ ep
    → Adds flags s.log (finish_pipe flags x s).log
unfolding finish_pipe
finish_pipe-Adds flags s x true e = kept-Adds flags s.log (finish_pipe flags x s).log (rw e refl)
finish_pipe-Adds flags s x false e =
    (logf_error flags.verbose stdout_failed x, rw e refl, logf_error-IsQuiet flags stdout_failed x)

finish_stdin-log : (flags : Flags) (s : Relay) → (finish_stdin flags s).log ≡ s.log
unfolding finish_stdin
finish_stdin-log flags s = ground arith

pub Step-Adds : (flags : Flags) (w : Bool) (s t : Relay) → Step flags w s t → Adds flags s.log t.log
Step-Adds flags w s t (copy_in chunk n c e) = kept-Adds flags s.log t.log (ap (λ r. r.log) e)
Step-Adds flags w s t (end_in n c e) =
    logf-Adds flags s.log t.log stdin_finished (ap (λ r. r.log) e)
Step-Adds flags w s t (fail_in x n c e) =
    (stdin_failed x ∷ [], ap (λ r. r.log) e, λ off. (refl, tt))
Step-Adds flags w s t (signal x n c e) =
    subst (λ (r : Relay). Adds flags s.log r.log) (sym e)
      (signal_end-Adds flags s x flags.close_write w refl)
Step-Adds flags w s t (finish_in n c e) =
    kept-Adds flags s.log t.log (ap (λ r. r.log) e ∙ finish_stdin-log flags s)
Step-Adds flags w s t (copy_out chunk n c e) = kept-Adds flags s.log t.log (ap (λ r. r.log) e)
Step-Adds flags w s t (end_out n c e) =
    logf-Adds flags s.log t.log pipe_finished (ap (λ r. r.log) e)
Step-Adds flags w s t (fail_out x n c e) =
    (pipe_failed x ∷ [], ap (λ r. r.log) e, λ off. (refl, tt))
Step-Adds flags w s t (finish_out x n c e) =
    subst (λ (r : Relay). Adds flags s.log r.log) (sym e)
      (finish_pipe-Adds flags s x flags.close_on_pipe_eof refl)
Step-Adds flags w s t (exit_in n c e) = kept-Adds flags s.log t.log (ap (λ r. r.log) e)
Step-Adds flags w s t (exit_out n c e) = kept-Adds flags s.log t.log (ap (λ r. r.log) e)
Step-Adds flags w s t (stdin_done n c d e) = kept-Adds flags s.log t.log (ap (λ r. r.log) e)
Step-Adds flags w s t (drain_timeout n c e) =
    logf-Adds flags s.log t.log still_open (ap (λ r. r.log) e)

-- Without -v the relay writes nothing behind its connection but the error of a copy and the warning of -s.
pub Reach-IsQuiet :
    (flags : Flags) (is_close_writer : Bool) (t : Relay)
    → Reach flags is_close_writer connected_relay t
    → IsQuiet flags t.log
Reach-IsQuiet flags w t here off = tt
Reach-IsQuiet flags w t (next {t = s} r st) off =
    let (more, e, quiet) = Step-Adds flags w s t st in
    subst (All (λ entry. is_verbose entry ≡ false)) (sym e) (
      All-append (λ entry. is_verbose entry ≡ false) s.log more (Reach-IsQuiet flags w s r off)
        (quiet off))
