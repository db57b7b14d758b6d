-- ===== src/Startup/Life/Ending.antt =====
-- The cleanup can end with every application, before its time is over.
use keybridge.Base.{
  ◌≡◌, ◌≢◌, refl, sym, subst, ◌∙◌, List, [], ◌∷◌, ◌++◌, true, Option, none, some, arith, All,
  All-append, inl, inr, append_assoc, append-nil, Bool-cases,
}
use keybridge.Base.Outcome.{Error}
use keybridge.Utils.MessageBox.{Box}
use keybridge.App.Serving
use keybridge.App.Serving.{Phase, Serving, listening_first}
use keybridge.App.Serving.Loops.{Application, loop_of}
use keybridge.App.Serving.Ends.{sees_cancel}
use keybridge.App.Serving.Shutdown.{Returns, cancelled-Returns}
use keybridge.Startup.Programs.{Program, pub_key_view_app, serving_app, pub_key_view_run}
use keybridge.Startup.Life.{
  Run, starting, serving, boxed, done, Task, cleaning, finished, Main, Around, finish, ended_by,
  TaskStep, viewed, entered, moved, left, dismissed, IsDone, ran, all_done, Reach, here, next,
  Reach-append,
}

-- An application that sees its context, or has none to see.
abbrev pub SeesCancel : Program → Type 0
SeesCancel pub_key_view_app = Unit {0}
SeesCancel (serving_app a) = sees_cancel a ≡ true

-- A goroutine that nothing but its handlers and the user keeps from its end.
abbrev pub CanFinish : Program → Run → Type 0
CanFinish p starting = SeesCancel p
CanFinish p (serving s) =
    (a : Application) × (p ≡ serving_app a) × (sees_cancel a ≡ true) × (s.phase ≢ Phase.crashed)
CanFinish p (boxed last) = Unit {0}
CanFinish p (done last) = Unit {0}

-- In the cleanup, with one goroutine come to `r` and the others as they were.
record Comes (w : Around) (s : Main) (before behind : List Task) (p : Program) (r : Run)
    : Type 0 where
  now : Main
  way : Reach w s now
  at : now.stage ≡ cleaning
  told : now.cancelled ≡ true
  kept : now.timed_out ≡ s.timed_out
  split : now.tasks ≡ before ++ record { program = p; run = r } ∷ behind

module _ (w : Around) (s : Main) (before behind : List Task) (p : Program) where
  further :
      (r r' : Run) (boxes : List Box)
      → Comes w s before behind p r
      → TaskStep w true p r r' boxes
      → Comes w s before behind p r'
  further r r' boxes c step =
      let g : Task = record { program = p; run = r } in
      record {
        now = record (c.now) {
          tasks = before ++ record { program = p; run = r' } ∷ behind;
          boxes = c.now.boxes ++ boxes;
        };
        way = next c.way (
            ran before behind g r' boxes (rw c.at refl) c.split
              (subst (λ k. TaskStep w k p r r' boxes) (sym c.told) step) refl);
        at = c.at;
        told = c.told;
        kept = c.kept;
        split = refl;
      }

  -- The steps of the loop itself.
  follow :
      (a : Application) (x y : Serving)
      → p ≡ serving_app a
      → Comes w s before behind p (serving x)
      → Serving.Reach (loop_of a w.checks) x y
      → Comes w s before behind p (serving y)
  follow a x y its c Serving.here = c
  follow a x y its c (Serving.next {t = z} way step) =
      further (serving z) (serving y) [] (follow a x z its c way)
        (moved a z y its refl step (λ k. refl) refl refl)

  -- Behind Run, with the box for its error closed.
  Ends : Type 0
  Ends = (last : Option Serving) × Comes w s before behind p (done last)

  close_box : (last : Option Serving) → Comes w s before behind p (boxed last) → Ends
  unfolding Ends
  close_box last c = (last, further (boxed last) (done last) [] c (dismissed last refl refl refl))

  leave_by :
      (r : Run) (result : Option Error) (last : Option Serving)
      → Comes w s before behind p r
      → ((r' : Run) (boxes : List Box)
          → (r', boxes) ≡ ended_by w p result last
          → TaskStep w true p r r' boxes)
      → Ends
  unfolding Ends ended_by
  leave_by r none last c step = (last, further r (done last) [] c (step (done last) [] refl))
  leave_by r (some e) last c step =
      close_box last (further r (boxed last) _ c (step (boxed last) _ refl))

  finish_loop :
      (a : Application) (closed : Error) (x : Serving)
      → w.checks.is_listener_closed closed ≡ true
      → p ≡ serving_app a
      → sees_cancel a ≡ true
      → x.cancelled ≡ true
      → x.phase ≢ Phase.crashed
      → Comes w s before behind p (serving x)
      → Ends
  finish_loop a closed x is_closed its sees k calm c =
      let e : Returns (loop_of a w.checks) x =
        cancelled-Returns a w.checks closed x is_closed sees k calm in
      leave_by (serving e.last) e.result (some e.last) (follow a x e.last its c e.way)
        (λ r' boxes shown. left e.last e.result refl e.at_end shown)

  -- A loop that has not been told yet is told first.
  end_loop :
      (a : Application) (closed : Error) (x : Serving)
      → w.checks.is_listener_closed closed ≡ true
      → p ≡ serving_app a
      → sees_cancel a ≡ true
      → x.phase ≢ Phase.crashed
      → Comes w s before behind p (serving x)
      → Ends
  end_loop a closed x is_closed its sees calm c = elim (Bool-cases x.cancelled) [
    | inl k ↦ finish_loop a closed x is_closed its sees k calm c
    | inr k ↦
        finish_loop a closed (record x { cancelled = true }) is_closed its sees refl calm
          (follow a x _ its c (Serving.next Serving.here (Serving.cancel k refl)))
  ]

end_run :
    (w : Around) (s : Main) (before behind : List Task) (p : Program) (r : Run) (closed : Error)
    → w.checks.is_listener_closed closed ≡ true
    → CanFinish p r
    → Comes w s before behind p r
    → Ends w s before behind p
unfolding Ends pub_key_view_run ended_by
end_run w s before behind pub_key_view_app starting closed is_closed can c =
    leave_by w s before behind pub_key_view_app starting none none c
      (λ r' boxes e. viewed refl refl e)
end_run w s before behind (serving_app a) starting closed is_closed can c =
    end_loop w s before behind (serving_app a) a closed listening_first is_closed refl can
      (λ e. ground (arith, e))
      (further w s before behind (serving_app a) starting (serving listening_first) [] c
        (entered a refl refl refl refl))
end_run w s before behind p (serving x) closed is_closed (a, its, sees, calm) c =
    end_loop w s before behind p a closed x is_closed its sees calm c
end_run w s before behind p (boxed last) closed is_closed can c =
    close_box w s before behind p last c
end_run w s before behind p (done last) closed is_closed can c = (last, c)

-- An end of `main` that does not wait for the time of the cleanup.
pub record EndsEarly (w : Around) (s : Main) : Type 0 where
  pub last : Main
  pub way : Reach w s last
  pub over : last.stage ≡ finished
  pub early : last.timed_out ≡ s.timed_out

later :
    (w : Around) (s t : Main)
    → Reach w s t
    → t.timed_out ≡ s.timed_out
    → EndsEarly w t
    → EndsEarly w s
later w s t way same e = record {
  last = e.last;
  way = Reach-append way e.way;
  over = e.over;
  early = e.early ∙ same;
}

abbrev pub TaskCanFinish : Task → Type 0
TaskCanFinish g = CanFinish g.program g.run

end_tasks :
    (w : Around) (closed : Error) (behind before : List Task) (s : Main)
    → w.checks.is_listener_closed closed ≡ true
    → s.stage ≡ cleaning
    → s.cancelled ≡ true
    → s.tasks ≡ before ++ behind
    → All IsDone before
    → All TaskCanFinish behind
    → EndsEarly w s
unfolding Ends finish
end_tasks w closed [] before s is_closed at told split ended can = record {
  last = finish w.outside s;
  way =
      next here (all_done at (subst (All IsDone) (sym (append-nil before) ∙ sym split) ended) refl);
  over = refl;
  early = refl;
}
end_tasks w closed (g ∷ gs) before s is_closed at told split ended can =
    let (last, c) =
      end_run w s before gs g.program g.run closed is_closed can.0
        (record { now = s; way = here; at = at; told = told; kept = refl; split = split }) in
    let g' : Task = record g { run = done last } in
    later w s c.now c.way c.kept (
      end_tasks w closed gs (before ++ g' ∷ []) c.now is_closed c.at c.told
        (c.split ∙ sym (append_assoc before (g' ∷ []) gs))
        (All-append IsDone before (g' ∷ []) ended ((last, refl), tt)) can.1)

-- In the cleanup, if each application has ended, or sees that the context is cancelled, or has none to see,
-- and no handshake has panicked: from there `main` can come to its end before the time of the cleanup is
-- over. For the named pipe, Accept is taken to have an error by which it says that its listener was closed.
pub cleanup-EndsEarly :
    (w : Around) (closed : Error) (s : Main)
    → w.checks.is_listener_closed closed ≡ true
    → s.stage ≡ cleaning
    → s.cancelled ≡ true
    → All TaskCanFinish s.tasks
    → EndsEarly w s
cleanup-EndsEarly w closed s is_closed at told can =
    end_tasks w closed s.tasks [] s is_closed at told refl tt can
