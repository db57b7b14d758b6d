-- ===== src/App/Serving/Shutdown.antt =====
-- What a cancelled context leads to.
use keybridge.Base.{
  ℕ, zero, suc, ◌≡◌, ◌≢◌, refl, sym, ◌∙◌, List, ◌++◌, [], ◌∷◌, Bool, true, false, Option, none,
  arith, ◌⊎◌, inl, inr,
}
use keybridge.Base.Outcome.{Error, closed_pipe}
use keybridge.App.Serving.{
  Phase, listening, waiting, returned, crashed, Serving, Loop, listening_first, Step, accepted,
  cancel, failed, noticed, handled, left, Reach, here, next, Reach-append, leave, note, wait_for,
}
use keybridge.App.Serving.Loops.{
  Checks, Application, named_pipe_app, pageant_app, x_shell_app, vsock_app, cygwin_app, wsl_app,
  loop_of, named_pipe, pageant, x_shell, vsock, cygwin, wsl, unless,
}
use keybridge.App.Serving.Ends.{sees_cancel}

-- Whether the method has returned, or the process has ended.
abbrev pub is_over : Phase → Bool
is_over listening = false
is_over (waiting r) = false
is_over (returned r) = true
is_over crashed = true

-- An end that the method can come to without a client doing anything but finish.
pub record CanEnd (loop : Loop) (s : Serving) : Type 0 where
  pub last : Serving
  pub way : Reach loop s last
  pub over : is_over last.phase ≡ true
  pub no_more : last.served ≡ s.served

-- A way to its return, with no connection served on it.
pub record Returns (loop : Loop) (s : Serving) : Type 0 where
  pub last : Serving
  pub way : Reach loop s last
  pub result : Option Error
  pub at_end : last.phase ≡ returned result
  pub no_more : last.served ≡ s.served

after :
    {loop : Loop} {s t : Serving}
    → Reach loop s t
    → t.served ≡ s.served
    → Returns loop t
    → Returns loop s
after r same e = record {
  last = e.last;
  way = Reach-append r e.way;
  result = e.result;
  at_end = e.at_end;
  no_more = e.no_more ∙ same;
}

drain :
    (loop : Loop) (n : ℕ) (s : Serving) (r : Option Error)
    → s.phase ≡ waiting r
    → s.handlers ≡ n
    → Returns loop s
drain loop zero s r p h = record {
  last = leave loop.closes r s;
  way = next here (left r p h refl);
  result = r;
  at_end = refl;
  no_more = refl;
}
drain loop (suc n) s r p h =
    after (next here (handled n h refl)) refl
      (drain loop n (record s { handlers = n; finished = suc s.finished }) r p refl)

from_listening :
    (a : Application) (c : Checks) (closed : Error) (s : Serving)
    → c.is_listener_closed closed ≡ true
    → sees_cancel a ≡ true
    → s.cancelled ≡ true
    → s.phase ≡ listening
    → Returns (loop_of a c) s
unfolding loop_of named_pipe pageant cygwin wsl
from_listening named_pipe_app c closed s is_closed sees k p =
    let shut = record s { is_open = false } in
    let t = wait_for (unless (c.is_listener_closed closed) closed) (note closed shut) in
    after (next (next here (noticed p k refl)) (failed closed p (rw is_closed refl) refl)) refl
      (drain (named_pipe c) s.handlers t _ refl refl)
from_listening pageant_app c closed s is_closed sees k p =
    after (next here (failed closed_pipe p (rw k refl) refl)) refl
      (drain (pageant c) s.handlers (wait_for none (note closed_pipe s)) none refl refl)
from_listening x_shell_app c closed s is_closed sees k p = absurd (ground arith)
from_listening vsock_app c closed s is_closed sees k p = absurd (ground arith)
from_listening cygwin_app c closed s is_closed sees k p =
    after (next here (noticed p k refl)) refl
      (drain (cygwin c) s.handlers (wait_for none s) none refl refl)
from_listening (wsl_app fallback) c closed s is_closed sees k p =
    after (next here (noticed p k refl)) refl
      (drain (wsl fallback c) s.handlers (wait_for none s) none refl refl)

from_phase :
    (a : Application) (c : Checks) (closed : Error) (s : Serving) (p : Phase)
    → c.is_listener_closed closed ≡ true
    → sees_cancel a ≡ true
    → s.cancelled ≡ true
    → s.phase ≡ p
    → (p ≡ crashed) ⊎ Returns (loop_of a c) s
from_phase a c closed s listening is_closed sees k p =
    inr (from_listening a c closed s is_closed sees k p)
from_phase a c closed s (waiting r) is_closed sees k p =
    inr (drain (loop_of a c) s.handlers s r p refl)
from_phase a c closed s (returned r) is_closed sees k p =
    inr (record { last = s; way = here; result = r; at_end = p; no_more = refl })
from_phase a c closed s crashed is_closed sees k p = inl refl

-- With no panic, they come to their return.
pub cancelled-Returns :
    (a : Application) (c : Checks) (closed : Error) (s : Serving)
    → c.is_listener_closed closed ≡ true
    → sees_cancel a ≡ true
    → s.cancelled ≡ true
    → s.phase ≢ crashed
    → Returns (loop_of a c) s
cancelled-Returns a c closed s is_closed sees k calm =
    elim (from_phase a c closed s s.phase is_closed sees k refl) [
      | inl e ↦ absurd (calm e)
      | inr r ↦ r
    ]

-- Once the context is cancelled, the accept loops of the named pipe, of Pageant, of Cygwin and of WSL can
-- always come to an end, in whatever state they are, with no client doing more than to finish: no further
-- connection is served on the way. For the named pipe, Accept is taken to have an error by which it says
-- that its listener was closed.
pub cancelled-CanEnd :
    (a : Application) (c : Checks) (closed : Error) (s : Serving)
    → c.is_listener_closed closed ≡ true
    → sees_cancel a ≡ true
    → s.cancelled ≡ true
    → CanEnd (loop_of a c) s
cancelled-CanEnd a c closed s is_closed sees k =
    elim (from_phase a c closed s s.phase is_closed sees k refl) [
      | inl e ↦ record { last = s; way = here; over = rw e refl; no_more = refl }
      | inr r ↦ record { last = r.last; way = r.way; over = rw r.at_end refl; no_more = r.no_more }
    ]

-- It is in its loop, or the process has ended.
abbrev pub is_unreturned : Phase → Bool
is_unreturned listening = true
is_unreturned (waiting r) = false
is_unreturned (returned r) = false
is_unreturned crashed = true

record Listens (s : Serving) : Type 0 where
  listens : s.errors ≡ [] → is_unreturned s.phase ≡ true

not_empty : (xs : List Error) (x : Error) → xs ++ x ∷ [] ≢ []
not_empty [] x e = ground arith
not_empty (y ∷ xs) x e = ground arith

failed-Listens : (x : Error) (s t : Serving) → t.errors ≡ s.errors ++ x ∷ [] → Listens t
failed-Listens x s t e = record { listens = λ h. absurd (not_empty s.errors x (sym e ∙ h)) }

Step-Listens :
    (a : Application) (c : Checks) (s t : Serving)
    → sees_cancel a ≡ false
    → Step (loop_of a c) s t
    → Listens s
    → Listens t
unfolding loop_of x_shell vsock
Step-Listens a c s t blind (cancel n e) i = ground arith
Step-Listens a c s t blind (handled n h e) i = ground arith
Step-Listens a c s t blind (left r p h e) i = ground arith
Step-Listens x_shell_app c s t blind (accepted conn p o e) i = ground arith
Step-Listens x_shell_app c s t blind (failed x p f e) i = failed-Listens x s t (ground (arith, e))
Step-Listens x_shell_app c s t blind (noticed p k e) i = ground arith
Step-Listens vsock_app c s t blind (accepted conn p o e) i = ground arith
Step-Listens vsock_app c s t blind (failed x p f e) i = failed-Listens x s t (ground (arith, e))
Step-Listens vsock_app c s t blind (noticed p k e) i = ground arith
Step-Listens named_pipe_app c s t blind st i = absurd (ground arith)
Step-Listens pageant_app c s t blind st i = absurd (ground arith)
Step-Listens cygwin_app c s t blind st i = absurd (ground arith)
Step-Listens (wsl_app fallback) c s t blind st i = absurd (ground arith)

Reach-Listens :
    (a : Application) (c : Checks) (t : Serving)
    → sees_cancel a ≡ false
    → Reach (loop_of a c) listening_first t
    → Listens t
Reach-Listens a c t blind here = record { listens = λ e. refl }
Reach-Listens a c t blind (next {t = s} r st) =
    Step-Listens a c s t blind st (Reach-Listens a c s blind r)

-- The loops of Xshell and VSock do not see that the context is cancelled: as long as Accept has not failed
-- they have not returned, whatever has happened, and whether the context is cancelled or not.
pub blind_loop_listens :
    (a : Application) (c : Checks) (t : Serving)
    → sees_cancel a ≡ false
    → Reach (loop_of a c) listening_first t
    → t.errors ≡ []
    → is_unreturned t.phase ≡ true
blind_loop_listens a c t blind r none_failed = (Reach-Listens a c t blind r).listens none_failed
