-- ===== src/Startup/Life/Cleanup.antt =====
-- How the cleanup ends: with every application, or by its time.
use keybridge.Base.{
  ◌≡◌, ◌≢◌, refl, subst, List, [], ◌∷◌, ◌++◌, Bool, false, Option, none, some, arith, All,
  All-split, ◌⊎◌, inl, inr,
}
use keybridge.App.Serving
use keybridge.App.Serving.{Serving, listening_first}
use keybridge.App.Serving.Loops.{Application, loop_of}
use keybridge.App.Serving.Ends.{sees_cancel}
use keybridge.App.Serving.Shutdown.{blind_loop_listens}
use keybridge.SshAgent.CapiAgent.{CapiAgent}
use keybridge.Startup.Programs.{serving_app}
use keybridge.Startup.Life.{Run, done, Task, finished, Main, main_first, Around, IsDone, Reach}
use keybridge.Startup.Life.Tasks.{IsLeft, RunFits, TaskFits}
use keybridge.Startup.Life.Stages.{Stands-at}
use keybridge.Startup.Life.Coherent.{Reach-IsCoherent}

-- With no time-out, every application is behind `wg.Done()`.
All-IsDone :
    (w : Around) (fallback : Bool) (agent : Option CapiAgent) (t : Main)
    → Reach w (main_first fallback agent) t
    → t.stage ≡ finished
    → t.timed_out ≡ false
    → All IsDone t.tasks
All-IsDone w fallback agent t r at early =
    let (tray, told, why, closed) =
      Stands-at w fallback t finished at (Reach-IsCoherent w fallback agent t r) in
    elim why [ inl late ↦ absurd (ground arith) | inr all ↦ all ]

-- A loop that does not see its context has been left by an error of Accept.
left-errors :
    (w : Around) (told : Bool) (a : Application) (s : Serving)
    → sees_cancel a ≡ false
    → IsLeft w.checks told (serving_app a) s
    → s.errors ≢ []
left-errors w told a s blind i none_failed =
    let same : i.running.application ≡ a = cc (i.running.its) in
    let reached : Serving.Reach (loop_of a w.checks) listening_first s =
      subst (λ x. Serving.Reach (loop_of x w.checks) listening_first s) same i.running.reached in
    ground (arith, blind_loop_listens a w.checks s blind reached none_failed, i.at_end)

-- What an application that is done has behind it.
done-errors :
    (w : Around) (told : Bool) (a : Application) (last : Option Serving)
    → sees_cancel a ≡ false
    → RunFits w.checks told (serving_app a) (done last)
    → (last ≡ none) ⊎ ((s : Serving) × (last ≡ some s) × (s.errors ≢ []))
done-errors w told a none blind i = inl refl
done-errors w told a (some s) blind i = inr (s, refl, left-errors w told a s blind i)

-- If `main` has ended before the time for the cleanup was over, the applications that do not see that the
-- context is cancelled, Xshell's and VSock's, had ended of themselves: their Run returned before its accept
-- loop, or Accept has failed in it.
pub blind_app_ended :
    (w : Around) (fallback : Bool) (agent : Option CapiAgent) (t : Main) (before behind : List Task)
    (a : Application) (r : Run)
    → Reach w (main_first fallback agent) t
    → t.stage ≡ finished
    → t.timed_out ≡ false
    → t.tasks ≡ before ++ record { program = serving_app a; run = r } ∷ behind
    → sees_cancel a ≡ false
    → (last : Option Serving) × (r ≡ done last)
      × ((last ≡ none) ⊎ ((s : Serving) × (last ≡ some s) × (s.errors ≢ [])))
blind_app_ended w fallback agent t before behind a r reached at early split blind =
    let sound = Reach-IsCoherent w fallback agent t reached in
    let g : Task = record { program = serving_app a; run = r } in
    let Fits = TaskFits w.checks t.cancelled in
    let ends =
      All-split IsDone before (g ∷ behind)
        (subst (All IsDone) split (All-IsDone w fallback agent t reached at early)) in
    let tasks = All-split Fits before (g ∷ behind) (subst (All Fits) split sound.tasks) in
    let (last, is_done) = ends.1.0 in
    (
      last,
      is_done,
      done-errors w t.cancelled a last blind
          (subst (RunFits w.checks t.cancelled (serving_app a)) is_done tasks.1.0),
    )
