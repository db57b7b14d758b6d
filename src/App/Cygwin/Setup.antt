-- ===== src/App/Cygwin/Setup.antt =====
-- app/cygwin.go up to the accept loop, and dataDir of app/app.go: the listener and the file that tells the
-- clients its port and the secret. The operating system's answers, and how a number is printed, are
-- parameters.
pub mod Published
mod Tests
use keybridge.Base.{
  ℕ, suc, ◌-◌, List, [], ◌∷◌, ◌++◌, Bool, true, false, Option, none, some, ◌⊎◌, inl, inr,
  if◌then◌else◌,
}
use keybridge.Base.Outcome.{Error, ok, err, Exec, ◌>>=◌, ◌>>◌, pure, raise, Result, panic}
use keybridge.App.Cygwin.{uuid_to_string}

-- What the system answers: UserCacheDir, filepath.Join, MkdirAll, the port of Listen, whether the two calls
-- of Remove take the file away, OpenFile, rand.Read, what of a text WriteString gets into
-- the file, SetFileAttributes, and the decimal digits of a number.
pub record System : Type 0 where
  pub user_cache_dir : Error ⊎ List ℕ
  pub join : List ℕ → List ℕ → List ℕ
  pub mkdir_error : Option Error
  pub listen : Error ⊎ ℕ
  pub removed_first : Bool
  pub removed_last : Bool
  pub open_error : Option Error
  pub random : Error ⊎ List ℕ
  pub written : List ℕ → List ℕ
  pub attributes_error : Option Error
  pub decimal : ℕ → List ℕ

-- The listeners and file handles of the process, and the socket file: its content, if it is there, and
-- whether it has the attributes that Cygwin asks for.
pub record Files : Type 0 where
  pub listeners : ℕ
  pub handles : ℕ
  pub sockfile : Option (List ℕ)
  pub marked : Bool

-- A call that may fail, whose value is used.
abbrev pub value : {A : Type 0} → Error ⊎ A → Exec Files A
value (inl e) = raise e
value (inr a) = pure a

abbrev pub check : Option Error → Exec Files (Unit {0})
check none = pure tt
check (some e) = raise e

abbrev name_key_bridge : List ℕ
name_key_bridge = 75 ∷ 101 ∷ 121 ∷ 66 ∷ 114 ∷ 105 ∷ 100 ∷ 103 ∷ 101 ∷ []

-- `dataDir`
pub data_dir : System → Exec Files (List ℕ)
data_dir sys = do
  cache ← value sys.user_cache_dir
  check sys.mkdir_error
  pure (sys.join cache name_key_bridge)

abbrev pub remove : Bool → Files → Files
remove done f = if done then record f { sockfile = none; marked = false } else f

-- The text "!<socket >%d s %s"
abbrev pub socket_text : System → ℕ → List ℕ → List ℕ
socket_text sys port uuid =
    (33 ∷ 60 ∷ 115 ∷ 111 ∷ 99 ∷ 107 ∷ 101 ∷ 116 ∷ 32 ∷ 62 ∷ [])
    ++ (sys.decimal port ++ ((32 ∷ 115 ∷ 32 ∷ []) ++ uuid_to_string uuid))

open_file : Option Error → Exec Files (Unit {0})
open_file (some e) f = (err e, f)
open_file none f = (ok tt, record f { handles = suc f.handles; sockfile = some [] })

-- The write, whose error is not looked at, and `file.Close()`
write_and_close : (List ℕ → List ℕ) → List ℕ → Exec Files (Unit {0})
write_and_close written text f =
    (ok tt, record f { handles = f.handles - 1; sockfile = some (written text) })

set_file_attributes : Option Error → Exec Files (Unit {0})
set_file_attributes (some e) f = (err e, f)
set_file_attributes none f = (ok tt, record f { marked = true })

-- `createCygwinSocket`: the file is not closed when there are no random bytes.
pub create_cygwin_socket : System → ℕ → Exec Files (List ℕ)
unfolding open_file write_and_close set_file_attributes
create_cygwin_socket sys port f =
    (do
      open_file sys.open_error
      uuid ← value sys.random
      write_and_close sys.written (socket_text sys port uuid)
      set_file_attributes sys.attributes_error
      pure uuid)
      (remove sys.removed_first f)

listen_tcp : Error ⊎ ℕ → Exec Files ℕ
listen_tcp (inl e) f = (err e, f)
listen_tcp (inr port) f = (ok port, record f { listeners = suc f.listeners })

-- The deferred function of `(*Cygwin).Run`: the file goes, and then the listener.
pub tear_down : System → Files → Files
tear_down sys f = let f' = remove sys.removed_last f in record f' { listeners = f'.listeners - 1 }

or_tear_down : System → ℕ → Result (List ℕ) × Files → Result (ℕ × List ℕ) × Files
unfolding tear_down
or_tear_down sys port (ok uuid, f) = (ok (port, uuid), f)
or_tear_down sys port (err e, f) = (err e, tear_down sys f)
or_tear_down sys port (panic, f) = (panic, tear_down sys f)

-- `(*Cygwin).Run` up to its loop: the port and the secret.
pub start : System → Exec Files (ℕ × List ℕ)
unfolding data_dir listen_tcp create_cygwin_socket or_tear_down
start sys = do
  dir ← data_dir sys
  port ← listen_tcp sys.listen
  λ f. or_tear_down sys port (create_cygwin_socket sys port f)
