-- ===== src/Startup/Life/Coherent.antt =====
-- What holds of the process at every moment.
use keybridge.Base.{refl, sym, subst, Bool, true, Option, some, inl, inr}
use keybridge.SshAgent.CapiAgent.{CapiAgent}
use keybridge.Startup.Programs.{applications}
use keybridge.Startup.Life.{
  cleaning, Main, main_first, Around, Step, launched, shown, event, ran, asked, died, all_done,
  time_out, Reach, here, next,
}
use keybridge.Startup.Life.Stages.{
  IsCoherent, Stands, Stands-at, launch-IsCoherent, show_tray-IsCoherent, on_event-IsCoherent,
  ran-IsCoherent, finish-IsCoherent, asked-Stands,
}

Step-IsCoherent :
    (w : Around) (fallback : Bool) (s t : Main)
    → Step w s t
    → IsCoherent w fallback s
    → IsCoherent w fallback t
Step-IsCoherent w fallback s t (launched p rest at e) i =
    subst (IsCoherent w fallback) (sym e) (launch-IsCoherent w fallback s p rest at i)
Step-IsCoherent w fallback s t (shown at e) i =
    subst (IsCoherent w fallback) (sym e) (show_tray-IsCoherent w fallback s at i)
Step-IsCoherent w fallback s t (event x at e) i =
    subst (IsCoherent w fallback) (sym e) (on_event-IsCoherent w fallback s x at i)
Step-IsCoherent w fallback s t (ran before behind g r boxes alive at step e) i =
    subst (IsCoherent w fallback) (sym e)
      (ran-IsCoherent w fallback s before behind g r boxes alive at step i)
Step-IsCoherent w fallback s t (asked k k' alive at e) i =
    subst (IsCoherent w fallback) (sym e) (record {
      tasks = i.tasks;
      started = i.started;
      stands = asked-Stands s.stage s (some k') alive i.stands;
    })
Step-IsCoherent w fallback s t (died before behind p last alive at down e) i =
    subst (IsCoherent w fallback) (sym e)
      (record { tasks = i.tasks; started = inl refl; stands = tt })
Step-IsCoherent w fallback s t (all_done at done_all e) i =
    subst (IsCoherent w fallback) (sym e) (finish-IsCoherent w fallback s at (inr done_all) i)
Step-IsCoherent w fallback s t (time_out at e) i = subst (IsCoherent w fallback) (sym e) (
    finish-IsCoherent w fallback (record s { timed_out = true }) at (inl refl)
      (record {
        tasks = i.tasks;
        started = i.started;
        stands =
            subst (λ x. Stands x (record s { timed_out = true })) (sym at)
              (Stands-at w fallback s cleaning at i);
      }))

-- In every interleaving of `main` with the goroutines of the applications, until a panic ends the process:
-- the applications are started once each, in the order of the list. The tray is closed and the context is
-- cancelled exactly from the cleanup on. When `main` ends, the time for the cleanup is over, or every
-- application is behind `wg.Done()`: its Run has returned, before its loop or from it, and a box for its
-- error is closed; and the certificate agent is closed, if there is one.
pub Reach-IsCoherent :
    (w : Around) (fallback : Bool) (agent : Option CapiAgent) (t : Main)
    → Reach w (main_first fallback agent) t
    → IsCoherent w fallback t
unfolding applications
Reach-IsCoherent w fallback agent t here = record {
  tasks = tt;
  started = inr refl;
  stands = (refl, refl);
}
Reach-IsCoherent w fallback agent t (next {t = s} r st) =
    Step-IsCoherent w fallback s t st (Reach-IsCoherent w fallback agent s r)
