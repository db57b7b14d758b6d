-- ===== src/Startup/Begin.antt =====
-- main.go up to the start of the applications: the command line, the log file, the check for Hyper-V and the
-- tray. The flag package, the tray and the system's files are other code; errors come in their printed form.
pub mod Outcomes
mod Tests
use Prim.Native.String.{◌++◌ as str_append}
use text.Mathlib.Text.{◌==◌ as str_eq}
use keybridge.Base.{
  ℕ, String, List, [], ◌∷◌, ◌++◌, Bool, true, false, Option, none, some, ◌⊎◌, inl, inr,
  if◌then◌else◌,
}
use keybridge.Base.Outcome.{Result, ok, err, panic}
use keybridge.Utils.MessageBox.{Box, mb_icon_error}
use keybridge.SshAgent.HyperV.{Parent, Links, over_link}
use keybridge.Utils.Shell.{behind_first}
use keybridge.Utils.Desktop.{Desktop, register_notifier}

-- The flags -i, -disable-capi and -disable-pin-cache.
pub record Flags : Type 0 where
  pub install_hv_service : Bool
  pub disable_capi : Bool
  pub disable_pin_cache : Bool

-- What `initDebugLog` asks: whether KB_DEBUG is "1", the home directory, the handle of the file that it opens,
-- and the errors of the two calls of SetStdHandle.
pub record LogFiles : Type 0 where
  pub debug : Bool
  pub home : String ⊎ String
  pub open_file : String → String ⊎ ℕ
  pub set_output_error : Option String
  pub set_error_error : Option String

-- Where the process writes: the standard handles of Windows, those of the Go runtime, and the files open.
pub record Output : Type 0 where
  pub output_handle : ℕ
  pub error_handle : ℕ
  pub go_output : ℕ
  pub go_error : ℕ
  pub open_files : List ℕ

set_error : ℕ → Option String → Output → Output
set_error f (some e) s = s
set_error f none s = record s { error_handle = f; go_output = f; go_error = f }

set_output : LogFiles → ℕ → Option String → Output → Output
unfolding set_error
set_output w f (some e) s = s
set_output w f none s = set_error f w.set_error_error (record s { output_handle = f })

to_file : LogFiles → String ⊎ ℕ → Output → Output
unfolding set_output
to_file w (inl e) s = s
to_file w (inr f) s =
    set_output w f w.set_output_error (record s { open_files = s.open_files ++ f ∷ [] })

under_home : LogFiles → String ⊎ String → Output → Output
unfolding to_file
under_home w (inl e) s = s
under_home w (inr home) s = to_file w (w.open_file home) s

-- `initDebugLog`, with the file's name joined to the home directory by `open_file`
pub init_debug_log : LogFiles → Output → Output
unfolding under_home
init_debug_log w s = if w.debug then under_home w w.home s else s

-- What `main` asks of other code: what flag.Parse makes of the arguments, the exit code with which it ends the
-- process (flag.ExitOnError: for -h or a flag that it cannot parse) or the flags; the host; the errors of LoadIcon
-- and NewNotifier; and what concerns the log.
pub record System : Type 0 where
  pub parse : List String → ℕ ⊎ Flags
  pub parent : Parent
  pub icon_error : Option String
  pub notifier_error : Option String
  pub files : LogFiles

-- What `main` goes on with: the relay with its arguments, the exit of flag.Parse, installService, its end behind a box, or the
-- applications, with the title of the tray, whether the host answers, and what SetDisablePINCache was given.
pub data Begun : Type 0 where
  relays : List String → Begun
  exits : ℕ → Begun
  installs : Begun
  fails : Box → Begun
  serves : String → Bool → Bool → Begun

-- What the beginning changes.
pub record Ground : Type 0 where
  pub output : Output
  pub links : Links
  pub desktop : Desktop

-- Whether there was a connection.
abbrev pub is_ok : {A : Type 0} → Result A → Bool
is_ok (ok a) = true
is_ok (err e) = false
is_ok panic = false

agent_title : Bool → String
agent_title hv = if hv then str_append "KeyBridge v1.0.8" " (Hyper-V)" else "KeyBridge v1.0.8"

-- `initSystray`, by the errors of LoadIcon and NewNotifier: an error, or the title of the tray.
init_systray : Option String → Option String → Bool → Desktop → (String ⊎ String) × Desktop
unfolding agent_title
init_systray (some e) notifier_error hv d = (inl e, d)
init_systray none (some e) hv d = (inl e, d)
init_systray none none hv d = (inr (agent_title hv), register_notifier d)

shown_tray : Flags → Bool → String ⊎ String → Begun
shown_tray flags hv (inl e) = fails (record { title = "Error:"; text = e; style = mb_icon_error })
shown_tray flags hv (inr title) = serves title hv flags.disable_pin_cache

-- Behind the flags and the log: ConnectHyperV with `hvConn.Close()`, and the tray.
serve : System → Flags → Ground → Begun × Ground
unfolding init_systray shown_tray
serve w flags s =
    let (r, l) = over_link w.parent (λ conn. ok tt) s.links in
    let hv = is_ok r in
    let (tray, d) = init_systray w.icon_error w.notifier_error hv s.desktop in
    (shown_tray flags hv tray, record s { links = l; desktop = d })

-- Behind flag.Parse.
parsed : System → ℕ ⊎ Flags → Ground → Begun × Ground
unfolding serve init_debug_log
parsed w (inl code) s = (exits code, s)
parsed w (inr flags) s =
    let s' = record s { output = init_debug_log w.files s.output } in
    if flags.install_hv_service then (installs, s') else serve w flags s'

-- `len(os.Args) > 1 && os.Args[1] == "relay"`: the arguments of the relay, if it is asked for.
pub relay_args : List String → Option (List String)
relay_args [] = none
relay_args (program ∷ []) = none
relay_args (program ∷ command ∷ args) = if str_eq command "relay" then some args else none

dispatch : List String → Option (List String) → System → Ground → Begun × Ground
unfolding parsed
dispatch args (some rest) w s = (relays rest, s)
dispatch args none w s = parsed w (w.parse (behind_first args)) s

-- `main`, by os.Args
pub begin : List String → System → Ground → Begun × Ground
unfolding dispatch relay_args
begin args w s = dispatch args (relay_args args) w s
