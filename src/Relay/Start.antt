-- ===== src/Relay/Start.antt =====
-- relay.go: `runRelay` up to the connection. The parsing of the flags is the flag package's: what it gives is
-- an argument. Texts are lists of bytes.
pub mod Begin
mod Tests
use keybridge.Base.{
  ℕ, List, [], ◌∷◌, ◌++◌, map, Bool, false, Option, none, some, ◌⊎◌, inl, inr, ◌==◌, if◌then◌else◌,
}
use keybridge.Relay.{DialError, Dialled, connected, failed, dial_pipe_with_poll, Flags}

-- What the flag -p and the others are set to.
pub record Options : Type 0 where
  pub poll : Bool
  pub flags : Flags

-- `fs.Parse` with flag.ExitOnError: the options and the arguments behind them, or the end of the process.
pub data Parsed : Type 0 where
  options : Options → List (List ℕ) → Parsed
  exits : ℕ → Parsed

-- What is written to the standard error.
pub data Line : Type 0 where
  misplaced : List ℕ → Line
  usage : Line
  connecting : List ℕ → Line
  connected_log : Line
  fatal : DialError → Line

-- How far it comes: the end of the process, a relay over a connection, or dialling still.
pub data Started : Type 0 where
  exited : ℕ → List Line → Started
  relaying : Options → ℕ → List Line → Started
  dialling : List Line → Started

-- `strings.HasPrefix(extra, "-")`
abbrev pub is_flag : List ℕ → Bool
is_flag [] = false
is_flag (b ∷ bs) = b == 45

-- The loop over the arguments behind the first one, which stops at the first that looks like a flag.
pub hint : List (List ℕ) → List Line
hint [] = []
hint (extra ∷ more) = let rest = hint more in if is_flag extra then misplaced extra ∷ [] else rest

-- `if fs.NArg() != 1`: the path of the pipe, or what is written before `os.Exit(1)`.
pub check_args : List (List ℕ) → List Line ⊎ List ℕ
unfolding hint
check_args [] = inl (usage ∷ [])
check_args (path ∷ []) = inr path
check_args (path ∷ extra ∷ more) = inl (hint (extra ∷ more) ++ usage ∷ [])

-- `logf`
abbrev pub logged : Bool → Line → List Line
logged verbose line = if verbose then line ∷ [] else []

after_dial : Options → List Line → Option Dialled → Started
after_dial o lines none = dialling lines
after_dial o lines (some (connected conn)) =
    relaying o conn (lines ++ logged o.flags.verbose connected_log)
after_dial o lines (some (failed e)) = exited 1 (lines ++ fatal e ∷ [])

dial_path : Options → List (List ℕ → Dialled) → List Line ⊎ List ℕ → Started
unfolding after_dial dial_pipe_with_poll
dial_path o attempts (inl lines) = exited 1 lines
dial_path o attempts (inr path) =
    after_dial o (logged o.flags.verbose (connecting path))
      (dial_pipe_with_poll o.poll (map (λ a. a path) attempts))

-- `runRelay` up to its connection, by what the attempts to dial a path return
pub run_relay : Parsed → List (List ℕ → Dialled) → Started
unfolding dial_path check_args
run_relay (exits code) attempts = exited code []
run_relay (options o args) attempts = dial_path o attempts (check_args args)
