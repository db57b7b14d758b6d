-- ===== src/App/Serving/Ends.antt =====
-- When the accept loops end, and what is left then.
use keybridge.Base.{
  not, ◌+◌, ◌≡◌, refl, List, [], ◌∷◌, Bool, true, false, none, some, arith, length, length-append,
}
use keybridge.Base.Outcome.{Error}
use keybridge.App.Serving.{
  Phase, listening, waiting, returned, crashed, Serving, listening_first, Step, accepted, failed,
  cancel, noticed, handled, left, Reach, here, next,
}
use keybridge.App.Serving.Loops.{
  Checks, Application, named_pipe_app, pageant_app, x_shell_app, vsock_app, cygwin_app, wsl_app,
  loop_of, named_pipe, pageant, x_shell, vsock, cygwin, wsl,
}

abbrev is_empty : {A : Type 0} → List A → Bool
is_empty [] = true
is_empty (x ∷ xs) = false

-- Whether a method waits for its handlers before it returns, by the errors of Accept.
abbrev pub waits : Application → List Error → Bool
waits named_pipe_app es = true
waits pageant_app es = true
waits x_shell_app es = true
waits vsock_app es = false
waits cygwin_app es = is_empty es
waits (wsl_app fallback) es = is_empty es

-- Whether a method that returns without an error has been cancelled.
abbrev pub sees_cancel : Application → Bool
sees_cancel named_pipe_app = true
sees_cancel pageant_app = true
sees_cancel x_shell_app = false
sees_cancel vsock_app = false
sees_cancel cygwin_app = true
sees_cancel (wsl_app fallback) = true

-- Whether the method that has returned has left its listener, or its window, as it was.
abbrev pub left_open : Application → Checks → Bool
left_open named_pipe_app c = false
left_open pageant_app c = not c.window_destroyed
left_open x_shell_app c = true
left_open vsock_app c = false
left_open cygwin_app c = false
left_open (wsl_app fallback) c = false

-- Whether only the return can close the listener.
abbrev pub keeps_open : Application → Bool
keeps_open named_pipe_app = false
keeps_open pageant_app = true
keeps_open x_shell_app = true
keeps_open vsock_app = true
keeps_open cygwin_app = true
keeps_open (wsl_app fallback) = true

-- What the phase of a method says: the errors of Accept, the handlers, the listener and the context.
abbrev pub Stands : Application → Checks → Serving → Phase → Type 0
Stands a c s listening =
    (s.errors ≡ [])
    × ((s.is_open ≡ false) → s.cancelled ≡ true)
    × (keeps_open a ≡ true → s.is_open ≡ true)
Stands a c s (waiting none) =
    (waits a s.errors ≡ true)
    × (sees_cancel a ≡ true → s.cancelled ≡ true)
    × (keeps_open a ≡ true → s.is_open ≡ true)
Stands a c s (waiting (some e)) =
    (waits a s.errors ≡ true) × (s.errors ≡ e ∷ []) × (keeps_open a ≡ true → s.is_open ≡ true)
Stands a c s (returned none) =
    (s.is_open ≡ left_open a c)
    × (waits a s.errors ≡ true → s.handlers ≡ 0)
    × (sees_cancel a ≡ true → s.cancelled ≡ true)
Stands a c s (returned (some e)) =
    (s.is_open ≡ left_open a c) × (waits a s.errors ≡ true → s.handlers ≡ 0) × (s.errors ≡ e ∷ [])
Stands a c s crashed = Unit {0}

pub record IsOrderly (a : Application) (c : Checks) (s : Serving) : Type 0 where
  pub counts : s.handlers + s.finished ≡ length s.served
  pub stands : Stands a c s s.phase

Step-IsOrderly :
    (a : Application) (c : Checks) (s t : Serving)
    → Step (loop_of a c) s t
    → IsOrderly a c s
    → IsOrderly a c t
unfolding loop_of named_pipe pageant x_shell vsock cygwin wsl
Step-IsOrderly a c s t (cancel n e) i = ground arith
Step-IsOrderly a c s t (handled n h e) i = ground arith
Step-IsOrderly named_pipe_app c s t (left none p h e) i = ground arith
Step-IsOrderly named_pipe_app c s t (left (some x) p h e) i = ground arith
Step-IsOrderly pageant_app c s t (left none p h e) i = ground arith
Step-IsOrderly pageant_app c s t (left (some x) p h e) i = ground arith
Step-IsOrderly x_shell_app c s t (left none p h e) i = ground arith
Step-IsOrderly x_shell_app c s t (left (some x) p h e) i = ground arith
Step-IsOrderly vsock_app c s t (left none p h e) i = ground arith
Step-IsOrderly vsock_app c s t (left (some x) p h e) i = ground arith
Step-IsOrderly cygwin_app c s t (left none p h e) i = ground arith
Step-IsOrderly cygwin_app c s t (left (some x) p h e) i = ground arith
Step-IsOrderly (wsl_app b) c s t (left none p h e) i = ground arith
Step-IsOrderly (wsl_app b) c s t (left (some x) p h e) i = ground arith
Step-IsOrderly named_pipe_app c s t (accepted conn p o e) i =
    ground (arith, length-append s.served (conn ∷ []))
Step-IsOrderly named_pipe_app c s t (failed x p f e) i = ground arith
Step-IsOrderly named_pipe_app c s t (noticed p k e) i = ground arith
Step-IsOrderly pageant_app c s t (accepted conn p o e) i =
    ground (arith, length-append s.served (conn ∷ []))
Step-IsOrderly pageant_app c s t (failed x p f e) i = ground arith
Step-IsOrderly pageant_app c s t (noticed p k e) i = ground arith
Step-IsOrderly x_shell_app c s t (accepted conn p o e) i =
    ground (arith, length-append s.served (conn ∷ []))
Step-IsOrderly x_shell_app c s t (failed x p f e) i = ground arith
Step-IsOrderly x_shell_app c s t (noticed p k e) i = ground arith
Step-IsOrderly vsock_app c s t (accepted conn p o e) i =
    ground (arith, length-append s.served (conn ∷ []))
Step-IsOrderly vsock_app c s t (failed x p f e) i = ground arith
Step-IsOrderly vsock_app c s t (noticed p k e) i = ground arith
Step-IsOrderly cygwin_app c s t (accepted conn p o e) i =
    ground (arith, length-append s.served (conn ∷ []))
Step-IsOrderly cygwin_app c s t (failed x p f e) i = ground arith
Step-IsOrderly cygwin_app c s t (noticed p k e) i = ground arith
Step-IsOrderly (wsl_app b) c s t (accepted conn p o e) i =
    ground (arith, length-append s.served (conn ∷ []))
Step-IsOrderly (wsl_app b) c s t (failed x p f e) i = ground arith
Step-IsOrderly (wsl_app b) c s t (noticed p k e) i = ground arith

-- In every interleaving, for each of the six accept loops: the handlers that run and those that have
-- finished are as many as the connections served. When a method has returned, the listeners of the
-- named pipe, VSock, Cygwin and WSL are closed, that of Xshell is open, and Pageant's window has gone exactly if
-- Windows destroys it. An error that a method returns is the only one that Accept has failed with. Those of the named
-- pipe, Pageant and Xshell return when no handler runs any more; those of Cygwin and WSL do if Accept has
-- not failed; of VSock's handlers nothing is said. Those that look at their context, all but Xshell's and
-- VSock's, have been cancelled when they return without an error.
pub Reach-IsOrderly :
    (a : Application) (c : Checks) (t : Serving)
    → Reach (loop_of a c) listening_first t
    → IsOrderly a c t
Reach-IsOrderly a c t here = record { counts = refl; stands = (refl, λ h. ground arith, λ h. refl) }
Reach-IsOrderly a c t (next {t = s} r st) = Step-IsOrderly a c s t st (Reach-IsOrderly a c s r)
