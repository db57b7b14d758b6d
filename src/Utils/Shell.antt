-- ===== src/Utils/Shell.antt =====
-- utils/uac.go, utils/scardsvr.go and utils/deadline.go: the programs that are started by ShellExecute, and the
-- deadline of a listener. Both end in a call of other code, whose result is a parameter.
mod Tests
use Prim.Native.String.{◌++◌ as str_append}
use keybridge.Base.{ℕ, ◌≡◌, refl, String, List, [], ◌∷◌, ◌++◌, Option, none}
use keybridge.Base.Outcome.{Error}

-- The arguments of a call of ShellExecute
pub record Started : Type 0 where
  pub verb : String
  pub exe : String
  pub args : String
  pub cwd : String
  pub show : ℕ

-- What a process knows of itself: os.Executable, os.Getwd and os.Args.
pub record Self : Type 0 where
  pub executable : String
  pub cwd : String
  pub args : List String

-- `strings.Join(args, " ")`
pub join : List String → String
join [] = ""
join (a ∷ []) = a
join (a ∷ b ∷ args) = str_append a (str_append " " (join (b ∷ args)))

-- `os.Args[1:]`
abbrev pub behind_first : List String → List String
behind_first [] = []
behind_first (program ∷ args) = args

-- A call of ShellExecute, with its error.
pub shell_execute : Option Error → Started → List Started → Option Error × List Started
shell_execute e call calls = (e, calls ++ call ∷ [])

-- `RunMeElevatedWithArgs`
pub run_me_elevated_with_args :
    Self → String → Option Error → List Started → Option Error × List Started
unfolding shell_execute
run_me_elevated_with_args self args e =
    shell_execute e
      (record { verb = "runas"; exe = self.executable; args = args; cwd = self.cwd; show = 1 })

-- `RunMeElevated`, which joins the arguments with no quotes
pub run_me_elevated : Self → Option Error → List Started → Option Error × List Started
unfolding shell_execute join
run_me_elevated self e = shell_execute e (record {
  verb = "runas";
  exe = self.executable;
  args = join (behind_first self.args);
  cwd = self.cwd;
  show = 1;
})

-- `StartSCardSvr`
pub start_s_card_svr : Self → Option Error → List Started → Option Error × List Started
unfolding shell_execute
start_s_card_svr self e =
    shell_execute e
      (record { verb = "runas"; exe = "net"; args = "start scardsvr"; cwd = self.cwd; show = 0 })

-- The kinds of listeners that SetListenerDeadline tells apart.
pub data Listener : Type 0 where
  tcp unix other : ℕ → Listener

-- `SetListenerDeadline`, by the error of SetDeadline: the listeners that have got the deadline.
pub set_listener_deadline :
    (ℕ → Option Error) → Listener → ℕ → List (ℕ × ℕ) → Option Error × List (ℕ × ℕ)
set_listener_deadline set_deadline (tcp l) t set = (set_deadline l, set ++ (l, t) ∷ [])
set_listener_deadline set_deadline (unix l) t set = (set_deadline l, set ++ (l, t) ∷ [])
set_listener_deadline set_deadline (other l) t set = (none, set)

-- To start this program elevated with its own arguments is to start it with their text.
pub run_me_elevated-join :
    (self : Self) (program : String) (args : List String) (e : Option Error) (calls : List Started)
    → self.args ≡ program ∷ args
    → run_me_elevated self e calls ≡ run_me_elevated_with_args self (join args) e calls
unfolding run_me_elevated run_me_elevated_with_args
run_me_elevated-join self program args e calls same = rw same refl
