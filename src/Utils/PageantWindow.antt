-- ===== src/Utils/PageantWindow.antt =====
-- utils/pageant.go and app/pageant.go: how the window of Pageant is made, its message loop, and what
-- (*Pageant).Run does with it before its accept loop. The classes and windows are those of Utils/XAgent.
pub mod Outcomes
mod Tests
use keybridge.Base.{ℕ, suc, List, [], ◌∷◌, Bool, ◌||◌, Option, none, some, ◌==◌, if◌then◌else◌}
use keybridge.Base.Bytes.{u32}
use keybridge.Base.Outcome.{Error, ok, Exec, ◌>>=◌, ◌>>◌, pure, crash}
use keybridge.Utils.XAgent.{
  Screen, WindowCalls, checked, register, unregister, Closing, close_window,
}

-- What the goroutine sends: `createWindow`
pub record CreateWindow : Type 0 where
  pub handle : ℕ
  pub create_err : Error

-- CreateWindowEx in the goroutine, and the result that it sends.
pub create_window_ex : WindowCalls → Screen → CreateWindow × Screen
create_window_ex calls s =
    let sent : CreateWindow = record { handle = calls.handle; create_err = calls.create_error } in
    (sent, if calls.handle == 0 then s else record s { windows = suc s.windows })

-- From the received result on: `err` is nil there, since it is that of the registration.
after_create : CreateWindow → Exec Screen (Option ℕ)
after_create sent s =
    if sent.handle == 0 then (ok none, unregister s) else (ok (some sent.handle), s)

-- `NewPageant`: the window, or nil beside a nil error, or an error.
pub new_pageant : WindowCalls → Exec Screen (Option ℕ)
unfolding create_window_ex after_create
new_pageant calls = do
  checked calls.class_name
  register calls.register_class
  λ s. let (sent, s') = create_window_ex calls s in after_create sent s'

-- `(*pageantWindow).Close`, which does what `(*window).Close` of utils/xagent.go does: the goroutine of the
-- message loop has made the window, and (*Pageant).Run calls it on another thread.
pub close : Closing → Screen → Screen
unfolding close_window
close = close_window

-- `(*Pageant).Run` up to its loop: a nil window is not noticed, and the first AcceptCtx goes through the nil
-- pointer.
enter : Option ℕ → Exec Screen ℕ
enter none = crash
enter (some window) = pure window

pub start : WindowCalls → Exec Screen ℕ
unfolding new_pageant enter
start calls = new_pageant calls >>= enter

-- Whether GetMessage ends the loop: its result is -1 or 0 as an int32.
pub is_last : ℕ → Bool
is_last ret = u32 ret == 4294967295 || u32 ret == 0

-- `eventLoop`, over the results of GetMessage and the messages that came with them: those dispatched.
pub event_loop : List (ℕ × ℕ) → List ℕ
unfolding is_last
event_loop [] = []
event_loop ((ret, message) ∷ more) =
    let rest = event_loop more in if is_last ret then [] else message ∷ rest
