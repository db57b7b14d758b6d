-- ===== src/Relay/Start/Begin.antt =====
-- How a relay begins.
use keybridge.Base.{
  ℕ, ◌≡◌, refl, ap, List, [], ◌∷◌, ◌++◌, map, true, false, Option, none, some, inl, inr, All,
  Bool-cases,
}
use keybridge.Relay.{Dialled, connected, failed, DialError, dial_pipe_with_poll}
use keybridge.Relay.Dial.{Settles, is_retried, dial_pipe_with_poll_iff, dialling-retried}
use keybridge.Relay.Start.{
  Options, options, Line, misplaced, usage, connecting, connected_log, fatal, Started, exited,
  relaying, dialling, is_flag, hint, check_args, logged, after_dial, dial_path, run_relay,
}

-- The first of the extra arguments that looks like a flag, or none that does.
pub data Hinted (extras : List (List ℕ)) : List Line → Type 0 where
  first :
      (before : List (List ℕ)) (extra : List ℕ) (behind : List (List ℕ)) (lines : List Line)
      → extras ≡ before ++ extra ∷ behind
      → All (λ x. is_flag x ≡ false) before
      → is_flag extra ≡ true
      → lines ≡ misplaced extra ∷ []
      → Hinted extras lines
  unmarked :
      (lines : List Line) → All (λ x. is_flag x ≡ false) extras → lines ≡ [] → Hinted extras lines

hint-cons :
    (x : List ℕ) (xs : List (List ℕ)) (lines : List Line)
    → is_flag x ≡ false
    → Hinted xs lines
    → Hinted (x ∷ xs) lines
hint-cons x xs lines plain (first before extra behind ls split others mark e) =
    first (x ∷ before) extra behind ls (ap (λ l. x ∷ l) split) (plain, others) mark e
hint-cons x xs lines plain (unmarked ls others e) = unmarked ls (plain, others) e

hint-Hinted : (extras : List (List ℕ)) → Hinted extras (hint extras)
unfolding hint
hint-Hinted [] = unmarked [] tt refl
hint-Hinted (x ∷ xs) = elim (Bool-cases (is_flag x)) [
  | inl mark ↦ rw mark (first [] x xs (misplaced x ∷ []) refl tt mark refl)
  | inr plain ↦ rw plain (hint-cons x xs (hint xs) plain (hint-Hinted xs))
]

-- The attempts at a path.
abbrev pub at_path : List ℕ → List (List ℕ → Dialled) → List Dialled
at_path path = map (λ (a : List ℕ → Dialled). a path)

-- How a relay with these options and arguments begins: it is told its use and how it went wrong; it
-- relays, or ends, by the first attempt that is not retried; or it dials as long as all are retried.
pub data Begins (o : Options) (args : List (List ℕ)) (attempts : List (List ℕ → Dialled))
    (r : Started) : Type 0 where
  no_path : args ≡ [] → r ≡ exited 1 (usage ∷ []) → Begins o args attempts r
  too_many :
      (path extra : List ℕ) (more : List (List ℕ)) (lines : List Line)
      → args ≡ path ∷ extra ∷ more
      → Hinted (extra ∷ more) lines
      → r ≡ exited 1 (lines ++ usage ∷ [])
      → Begins o args attempts r
  relays :
      (path : List ℕ) (conn : ℕ)
      → args ≡ path ∷ []
      → Settles o.poll (at_path path attempts) (connected conn)
      → r
        ≡ relaying o conn
            (logged o.flags.verbose (connecting path) ++ logged o.flags.verbose connected_log)
      → Begins o args attempts r
  gives_up :
      (path : List ℕ) (e : DialError)
      → args ≡ path ∷ []
      → Settles o.poll (at_path path attempts) (failed e)
      → r ≡ exited 1 (logged o.flags.verbose (connecting path) ++ fatal e ∷ [])
      → Begins o args attempts r
  goes_on :
      (path : List ℕ)
      → args ≡ path ∷ []
      → All (λ a. is_retried o.poll a ≡ true) (at_path path attempts)
      → r ≡ dialling (logged o.flags.verbose (connecting path))
      → Begins o args attempts r

dials :
    (o : Options) (attempts : List (List ℕ → Dialled)) (path : List ℕ) (d : Option Dialled)
    → dial_pipe_with_poll o.poll (at_path path attempts) ≡ d
    → Begins o (path ∷ []) attempts (after_dial o (logged o.flags.verbose (connecting path)) d)
unfolding after_dial
dials o attempts path none e =
    goes_on path refl (dialling-retried o.poll (at_path path attempts) e) refl
dials o attempts path (some (connected conn)) e =
    relays path conn refl
      ((dial_pipe_with_poll_iff o.poll (at_path path attempts) (connected conn)).0 e) refl
dials o attempts path (some (failed x)) e =
    gives_up path x refl ((dial_pipe_with_poll_iff o.poll (at_path path attempts) (failed x)).0 e)
      refl

-- For any options and arguments, and whatever the attempts to dial return: without a path, or with more
-- than one argument, the process exits by 1; it writes its use, and before it the first of the extra
-- arguments that looks like a flag, if there is one. With one argument it relays over the
-- connection of the first attempt that is not retried, or exits by 1 with that attempt's error, or dials
-- still, if all were retried; connecting and connected are logged with -v only.
pub run_relay-Begins :
    (o : Options) (args : List (List ℕ)) (attempts : List (List ℕ → Dialled))
    → Begins o args attempts (run_relay (options o args) attempts)
unfolding run_relay dial_path check_args
run_relay-Begins o [] attempts = no_path refl refl
run_relay-Begins o (path ∷ []) attempts =
    dials o attempts path (dial_pipe_with_poll o.poll (at_path path attempts)) refl
run_relay-Begins o (path ∷ extra ∷ more) attempts =
    too_many path extra more (hint (extra ∷ more)) refl (hint-Hinted (extra ∷ more)) refl
