-- ===== src/App/Serving/Loops.antt =====
-- What the six Run methods do.
use keybridge.Base.{ℕ, Bool, true, false, not, ◌&&◌, Option, none, some, if◌then◌else◌}
use keybridge.Base.Outcome.{Error, closed_pipe, Result, ok, err, panic}
use keybridge.App.Serving.{Serving, Loop, crashed, serve, refuse, wait_for, leave}
use keybridge.App.Wsl.{is_stranger}

-- The other code that the methods ask: whether an error is `winio.ErrPipeListenerClosed`, how the
-- handshakes of Xshell and Cygwin end for a connection, what SameUserTCPConn says, and whether Windows destroys
-- the window of Pageant, which it refuses on another thread than the one that has made it.
pub record Checks : Type 0 where
  pub is_listener_closed : Error → Bool
  pub xshell_handshake : ℕ → Result (Unit {0})
  pub cygwin_handshake : ℕ → Result (Unit {0})
  pub same_user : ℕ → Result Bool
  pub window_destroyed : Bool

-- `if err != io.ErrClosedPipe { return err }; return nil`, and the same for another error
abbrev pub unless : Bool → Error → Option Error
unless is_end e = if is_end then none else some e

abbrev pub is_closed_pipe : Error → Bool
is_closed_pipe closed_pipe = true
is_closed_pipe e = false

-- `(*NamedPipe).Run`: a goroutine closes the listener when the context is cancelled, and Accept says so of
-- a closed listener only.
unfoldable pub named_pipe : Checks → Loop
named_pipe c = record {
  on_conn = serve;
  on_error = λ e. wait_for (unless (c.is_listener_closed e) e);
  on_cancelled = λ s. record s { is_open = false };
  can_fail = λ e s. if c.is_listener_closed e then not s.is_open else true;
  closes = true;
}

-- `(*Pageant).Run`: AcceptCtx fails by `io.ErrClosedPipe`, when the context is cancelled, and by nothing
-- else. The deferred `win.Close()` destroys the window, if Windows does.
unfoldable pub pageant : Checks → Loop
pageant c = record {
  on_conn = serve;
  on_error = λ e. wait_for (unless (is_closed_pipe e) e);
  on_cancelled = λ s. s;
  can_fail = λ e s. is_closed_pipe e && s.cancelled;
  closes = c.window_destroyed;
}

abbrev pub by_handshake : Result (Unit {0}) → ℕ → Serving → Serving
by_handshake (ok u) conn s = serve conn s
by_handshake (err e) conn s = refuse conn s
by_handshake panic conn s = record s { phase = crashed }

-- `(*XShell).Run`, which does not look at its context; the deferred `xa.Close()` closes the windows and leaves
-- the listener.
unfoldable pub x_shell : Checks → Loop
x_shell c = record {
  on_conn = λ conn. by_handshake (c.xshell_handshake conn) conn;
  on_error = λ e. wait_for (unless (is_closed_pipe e) e);
  on_cancelled = λ s. s;
  can_fail = λ e s. true;
  closes = false;
}

-- `(*VSock).Run` behind its checks: the goroutine that waits for the context only waits for the handlers,
-- and an error of Accept is taken for the end.
unfoldable pub vsock : Loop
vsock = record {
  on_conn = serve;
  on_error = λ e. leave true none;
  on_cancelled = λ s. s;
  can_fail = λ e s. true;
  closes = true;
}

-- `(*Cygwin).Run`: the context is looked at between two calls of Accept, which a deadline ends.
unfoldable pub cygwin : Checks → Loop
cygwin c = record {
  on_conn = λ conn. by_handshake (c.cygwin_handshake conn) conn;
  on_error = λ e. leave true (some e);
  on_cancelled = wait_for none;
  can_fail = λ e s. true;
  closes = true;
}

-- `(*WSL).Run`, by whether it listens on the loopback address
unfoldable pub wsl : Bool → Checks → Loop
wsl fallback c = record {
  on_conn = λ conn. if fallback && is_stranger (c.same_user conn) then refuse conn else serve conn;
  on_error = λ e. leave true (some e);
  on_cancelled = wait_for none;
  can_fail = λ e s. true;
  closes = true;
}

-- The six of them
pub data Application : Type 0 where
  named_pipe_app pageant_app x_shell_app vsock_app cygwin_app : Application
  wsl_app : Bool → Application

unfoldable pub loop_of : Application → Checks → Loop
unfolding named_pipe pageant x_shell vsock cygwin wsl
loop_of named_pipe_app c = named_pipe c
loop_of pageant_app c = pageant c
loop_of x_shell_app c = x_shell c
loop_of vsock_app c = vsock
loop_of cygwin_app c = cygwin c
loop_of (wsl_app fallback) c = wsl fallback c
