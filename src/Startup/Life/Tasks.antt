-- ===== src/Startup/Life/Tasks.antt =====
-- What an application's goroutine has behind it, and that its steps keep to it.
use keybridge.Base.{◌≡◌, refl, ap, sym, subst, List, Bool, true, Option, none, some, arith}
use keybridge.Base.Outcome.{Error}
use keybridge.Utils.MessageBox.{Box}
use keybridge.App.Serving
use keybridge.App.Serving.{Serving, listening_first, returned}
use keybridge.App.Serving.Loops.{Checks, Application, loop_of}
use keybridge.Startup.Programs.{Program, serving_app}
use keybridge.Startup.Life.{
  Run, starting, serving, boxed, done, Task, Around, ended_by, TaskStep, viewed, entered, refused,
  moved, left, dismissed,
}

-- A loop that a goroutine has gone into, as the loop's own steps leave it.
pub record IsRunning (c : Checks) (cancelled : Bool) (p : Program) (s : Serving) : Type 0 where
  pub application : Application
  pub its : p ≡ serving_app application
  pub reached : Serving.Reach (loop_of application c) listening_first s
  pub told : s.cancelled ≡ true → cancelled ≡ true

-- A loop that Run has returned from.
pub record IsLeft (c : Checks) (cancelled : Bool) (p : Program) (s : Serving) : Type 0 where
  pub running : IsRunning c cancelled p s
  pub result : Option Error
  pub at_end : s.phase ≡ returned result

abbrev pub Behind : Checks → Bool → Program → Option Serving → Type 0
Behind c cancelled p none = Unit {0}
Behind c cancelled p (some s) = IsLeft c cancelled p s

abbrev pub RunFits : Checks → Bool → Program → Run → Type 0
RunFits c cancelled p starting = Unit {0}
RunFits c cancelled p (serving s) = IsRunning c cancelled p s
RunFits c cancelled p (boxed last) = Behind c cancelled p last
RunFits c cancelled p (done last) = Behind c cancelled p last

abbrev pub TaskFits : Checks → Bool → Task → Type 0
TaskFits c cancelled g = RunFits c cancelled g.program g.run

IsRunning-told :
    (c : Checks) (k : Bool) (p : Program) (s : Serving) → IsRunning c k p s → IsRunning c true p s
IsRunning-told c k p s i = record {
  application = i.application;
  its = i.its;
  reached = i.reached;
  told = λ h. refl;
}

Behind-told :
    (c : Checks) (k : Bool) (p : Program) (last : Option Serving)
    → Behind c k p last
    → Behind c true p last
Behind-told c k p none i = tt
Behind-told c k p (some s) i = record {
  running = IsRunning-told c k p s i.running;
  result = i.result;
  at_end = i.at_end;
}

-- What is sound stays so when the context is cancelled.
pub RunFits-told :
    (c : Checks) (k : Bool) (p : Program) (r : Run) → RunFits c k p r → RunFits c true p r
RunFits-told c k p starting i = tt
RunFits-told c k p (serving s) i = IsRunning-told c k p s i
RunFits-told c k p (boxed last) i = Behind-told c k p last i
RunFits-told c k p (done last) i = Behind-told c k p last i

ended_by-IsCoherent :
    (w : Around) (k : Bool) (p : Program) (result : Option Error) (last : Option Serving)
    → Behind w.checks k p last
    → RunFits w.checks k p (ended_by w p result last).0
unfolding ended_by
ended_by-IsCoherent w k p none last i = i
ended_by-IsCoherent w k p (some e) last i = i

pub TaskStep-IsCoherent :
    (w : Around) (k : Bool) (p : Program) (r r' : Run) (boxes : List Box)
    → TaskStep w k p r r' boxes
    → RunFits w.checks k p r
    → RunFits w.checks k p r'
TaskStep-IsCoherent w k p r r' boxes (viewed its at e) i =
    subst (RunFits w.checks k p) (sym (ap (λ (q : Run × List Box). q.0) e))
      (ended_by-IsCoherent w k p _ none tt)
TaskStep-IsCoherent w k p r r' boxes (entered a its at e none_shown) i =
    subst (RunFits w.checks k p) (sym e)
      (record { application = a; its = its; reached = Serving.here; told = λ h. ground arith })
TaskStep-IsCoherent w k p r r' boxes (refused a result its at e) i =
    subst (RunFits w.checks k p) (sym (ap (λ (q : Run × List Box). q.0) e))
      (ended_by-IsCoherent w k p result none tt)
TaskStep-IsCoherent w k p r r' boxes (moved a s t its at step told e none_shown) i =
    let was : IsRunning w.checks k p s = subst (RunFits w.checks k p) at i in
    let same : was.application ≡ a = cc (was.its, its) in
    let reached : Serving.Reach (loop_of a w.checks) listening_first s =
      subst (λ x. Serving.Reach (loop_of x w.checks) listening_first s) same was.reached in
    subst (RunFits w.checks k p) (sym e)
      (record { application = a; its = its; reached = Serving.next reached step; told = told })
TaskStep-IsCoherent w k p r r' boxes (left s result at p_end e) i =
    subst (RunFits w.checks k p) (sym (ap (λ (q : Run × List Box). q.0) e)) (
      ended_by-IsCoherent w k p result (some s)
        (record { running = subst (RunFits w.checks k p) at i; result = result; at_end = p_end }))
TaskStep-IsCoherent w k p r r' boxes (dismissed last at e none_shown) i =
    subst (RunFits w.checks k p) (sym e) (subst (RunFits w.checks k p) at i)
