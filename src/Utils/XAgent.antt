-- ===== src/Utils/XAgent.antt =====
-- utils/xagent.go, with register and unregister of utils/window.go: the windows and the listener of the
-- Xshell agent. What Windows answers is a parameter. A class that has no window is
-- unregistered, as Windows documents it.
pub mod Resources
mod Tests
use keybridge.Base.{
  Bool, ℕ, suc, ◌-◌, List, [], ◌∷◌, ◌++◌, Option, none, some, ◌⊎◌, inl, inr, ◌==◌, if◌then◌else◌,
}
use keybridge.Base.Outcome.{Error, ok, err, Exec, ◌>>=◌, pure, raise}

-- A call of SetWindowLong: the window, which of its values is set, and to what.
pub record WindowLong : Type 0 where
  pub window : ℕ
  pub index : ℕ
  pub value : ℕ

-- How many window classes, windows and listeners the process has, and the values set in windows, oldest first.
pub record Screen : Type 0 where
  pub classes : ℕ
  pub windows : ℕ
  pub sockets : ℕ
  pub longs : List WindowLong

-- What Windows answers while a window is made: the errors of the two conversions of names and of
-- RegisterClassEx, and the handle of CreateWindowEx with its error, which counts if the handle is 0.
pub record WindowCalls : Type 0 where
  pub class_name : Option Error
  pub window_name : Option Error
  pub register_class : Option Error
  pub handle : ℕ
  pub create_error : Error

-- `if err != nil { return nil, err }`
unfoldable pub checked : Option Error → Exec Screen (Unit {0})
checked none = pure tt
checked (some e) = raise e

unfoldable pub register : Option Error → Exec Screen (Unit {0})
register none s = (ok tt, record s { classes = suc s.classes })
register (some e) s = (err e, s)

unfoldable pub unregister : Screen → Screen
unregister s = record s { classes = s.classes - 1 }

-- From CreateWindowEx on: the window's handle.
pub create_window : WindowCalls → Exec Screen ℕ
unfolding unregister
create_window calls s =
    if calls.handle == 0
    then (err calls.create_error, unregister s)
    else (ok calls.handle, record s { windows = suc s.windows })

-- `createDefaultWindow`
pub create_default_window : WindowCalls → Exec Screen ℕ
unfolding checked register create_window
create_default_window calls = checked calls.class_name >>= λ u.
    checked calls.window_name >>= λ u. register calls.register_class >>= λ u. create_window calls

-- Whether Windows destroys a window, which it refuses on another thread than the one that has made it, and
-- whether it then unregisters the class. Nothing looks at these answers.
pub record Closing : Type 0 where
  pub destroyed : Bool
  pub unregistered : Bool

-- `(*window).Close`
unfoldable pub close_window : Closing → Screen → Screen
unfolding unregister
close_window w s =
    let s' = if w.destroyed then record s { windows = s.windows - 1 } else s in
    if w.unregistered then unregister s' else s'

-- The fields of `XAgent` that are windows.
pub record XAgent : Type 0 where
  pub cookie_win : ℕ
  pub single_instance_win : ℕ

-- `net.Listen`: the port of the listener.
pub listen : Error ⊎ ℕ → Exec Screen ℕ
listen (inr port) s = (ok port, record s { sockets = suc s.sockets })
listen (inl e) s = (err e, s)

-- `SetWindowLong`; nothing looks at its result, the value that was there before.
pub set_window_long : ℕ → ℕ → ℕ → Exec Screen (Unit {0})
set_window_long window index value s = (
  ok tt,
  record s { longs = s.longs ++ record { window = window; index = index; value = value } ∷ [] },
)

-- The end of `NewXAgent`, where Xshell finds the port: the user data of the window, GWLP_USERDATA.
publish : ℕ → ℕ → ℕ → Exec Screen XAgent
unfolding set_window_long
publish port cookie single = set_window_long cookie 0xFFFFFFEB port >>= λ u.
    pure (record { cookie_win = cookie; single_instance_win = single })

-- `NewXAgent`, by what Listen and the calls for the two windows return.
pub new_x_agent : Error ⊎ ℕ → WindowCalls → WindowCalls → Exec Screen XAgent
unfolding create_default_window listen publish
new_x_agent listened first second = listen listened >>= λ port.
    create_default_window first >>= λ cookie.
    create_default_window second >>= λ single. publish port cookie single

-- `(*XAgent).Close`, by the answers for both windows
pub close : Closing → Closing → Screen → Screen
unfolding close_window
close cookie single s = close_window single (close_window cookie s)
