-- ===== src/Startup/Life/Stages.antt =====
-- What each stage of `main` stands for, and that what `main` and its goroutines do keeps to it.
use keybridge.Base.{
  ◌≡◌, refl, ap, sym, ◌∙◌, subst, List, [], ◌∷◌, ◌++◌, map, Bool, true, false, Option, none, some,
  arith, All, All-append, All-split, All-mono, ◌⊎◌, inl, inr, append_assoc, map-append, if_either,
  String,
}
use keybridge.App.AppId.{menu_quit}
use keybridge.Utils.MessageBox.{Box, mb_icon_error}
use keybridge.SshAgent.CapiAgent.{Outside, CapiAgent, close}
use keybridge.SshAgent.CapiAgent.Handles.{keys-close}
use keybridge.Startup.Menu.{Event}
use keybridge.Startup.Programs.{Program, applications}
use keybridge.Startup.Life.{
  Run, starting, Task, Stage, launching, looping, cleaning, finished, crashed, Main, Around, launch,
  clean_up, add_tray, show_tray, on_event, closed_agent, finish, TaskStep, is_alive, IsDone,
}
use keybridge.Startup.Life.Tasks.{TaskFits, RunFits-told, TaskStep-IsCoherent}

-- The applications that are still to be started.
abbrev pub left_over : Stage → List Program
left_over (launching ps) = ps
left_over looping = []
left_over cleaning = []
left_over finished = []
left_over crashed = []

-- What the stage says of the tray, the context, the goroutines and the certificate agent.
abbrev pub Stands : Stage → Main → Type 0
Stands (launching ps) s = (s.tray_closed ≡ false) × (s.cancelled ≡ false)
Stands looping s = (s.tray_closed ≡ false) × (s.cancelled ≡ false)
Stands cleaning s = (s.tray_closed ≡ true) × (s.cancelled ≡ true)
Stands finished s =
    (s.tray_closed ≡ true)
    × (s.cancelled ≡ true)
    × ((s.timed_out ≡ true) ⊎ All IsDone s.tasks)
    × ((k : CapiAgent) → s.agent ≡ some k → k.keys ≡ none)
Stands crashed s = Unit {0}

-- Every application is started once, in the order of the list; the stages are as `Stands` says.
pub record IsCoherent (w : Around) (fallback : Bool) (s : Main) : Type 0 where
  pub tasks : All (TaskFits w.checks s.cancelled) s.tasks
  pub started :
      (s.stage ≡ crashed)
      ⊎ (map (λ (g : Task). g.program) s.tasks ++ left_over s.stage ≡ applications fallback)
  pub stands : Stands s.stage s

-- The programs of a list of goroutines.
abbrev pub programs : List Task → List Program
programs = map (λ (g : Task). g.program)

started_at :
    (w : Around) (fallback : Bool) (s : Main) (x : Stage)
    → s.stage ≡ x
    → IsCoherent w fallback s
    → (x ≡ crashed) ⊎ (programs s.tasks ++ left_over x ≡ applications fallback)
started_at w fallback s x at i =
    subst (λ y. (y ≡ crashed) ⊎ (programs s.tasks ++ left_over y ≡ applications fallback)) at
      i.started

pub Stands-at :
    (w : Around) (fallback : Bool) (s : Main) (x : Stage)
    → s.stage ≡ x
    → IsCoherent w fallback s
    → Stands x s
Stands-at w fallback s x at i = subst (λ y. Stands y s) at i.stands

pub launch-IsCoherent :
    (w : Around) (fallback : Bool) (s : Main) (p : Program) (rest : List Program)
    → s.stage ≡ launching (p ∷ rest)
    → IsCoherent w fallback s
    → IsCoherent w fallback (launch w.hv_socket p rest s)
unfolding launch
launch-IsCoherent w fallback s p rest at i = record {
  tasks = All-append _ s.tasks _ i.tasks (tt, tt);
  started = elim (started_at w fallback s _ at i) [
    | inl e ↦ absurd (ground arith)
    | inr e ↦ inr (
        ap (λ l. l ++ rest) (map-append _ s.tasks (record { program = p; run = starting } ∷ []))
        ∙ append_assoc (programs s.tasks) (p ∷ []) rest
        ∙ e)
  ];
  stands = Stands-at w fallback s _ at i;
}

-- What the cleanup is entered with.
clean_up-IsCoherent :
    (w : Around) (fallback : Bool) (s : Main)
    → All (TaskFits w.checks s.cancelled) s.tasks
    → programs s.tasks ++ [] ≡ applications fallback
    → IsCoherent w fallback (clean_up s)
unfolding clean_up
clean_up-IsCoherent w fallback s tasks e = record {
  tasks = All-mono s.tasks (λ g. RunFits-told w.checks s.cancelled g.program g.run) tasks;
  started = inr e;
  stands = (refl, refl);
}

add_tray-IsCoherent :
    (w : Around) (fallback : Bool) (s : Main) (error : Option String)
    → All (TaskFits w.checks s.cancelled) s.tasks
    → programs s.tasks ++ [] ≡ applications fallback
    → (s.tray_closed ≡ false) × (s.cancelled ≡ false)
    → IsCoherent w fallback (add_tray error s)
unfolding add_tray
add_tray-IsCoherent w fallback s none tasks e open_yet = record {
  tasks = tasks;
  started = inr e;
  stands = open_yet;
}
add_tray-IsCoherent w fallback s (some x) tasks e open_yet =
    let box : Box = record { title = "Error:"; text = x; style = mb_icon_error } in
    clean_up-IsCoherent w fallback (record s { boxes = s.boxes ++ box ∷ [] }) tasks e

pub show_tray-IsCoherent :
    (w : Around) (fallback : Bool) (s : Main)
    → s.stage ≡ launching []
    → IsCoherent w fallback s
    → IsCoherent w fallback (show_tray w.add_error s)
unfolding show_tray
show_tray-IsCoherent w fallback s at i = elim (started_at w fallback s _ at i) [
  | inl e ↦ absurd (ground arith)
  | inr e ↦
      add_tray-IsCoherent w fallback
        (record s { menu = record (s.menu) { items = s.menu.items ++ ("Quit", menu_quit) ∷ [] } })
        w.add_error i.tasks e (Stands-at w fallback s _ at i)
]

pub on_event-IsCoherent :
    (w : Around) (fallback : Bool) (s : Main) (e : Event)
    → s.stage ≡ looping
    → IsCoherent w fallback s
    → IsCoherent w fallback (on_event e s)
unfolding on_event
on_event-IsCoherent w fallback s e at i = elim (started_at w fallback s _ at i) [
  | inl x ↦ absurd (ground arith)
  | inr x ↦
      if_either (IsCoherent w fallback) _ (clean_up-IsCoherent w fallback s i.tasks x) (record {
        tasks = i.tasks;
        started = i.started;
        stands = rw at (Stands-at w fallback s _ at i);
      })
]

-- One goroutine's change leaves the programs and what the others do.
programs-ran :
    (before behind : List Task) (g : Task) (r : Run)
    → programs (before ++ record g { run = r } ∷ behind) ≡ programs (before ++ g ∷ behind)
programs-ran before behind g r =
    map-append _ before (record g { run = r } ∷ behind) ∙ sym (map-append _ before (g ∷ behind))

Stands-ran :
    (x : Stage) (s : Main) (tasks : List Task) (boxes : List Box)
    → is_alive x ≡ true
    → Stands x s
    → Stands x (record s { tasks = tasks; boxes = boxes })
Stands-ran (launching ps) s tasks boxes alive i = i
Stands-ran looping s tasks boxes alive i = i
Stands-ran cleaning s tasks boxes alive i = i
Stands-ran finished s tasks boxes alive i = absurd (ground arith)
Stands-ran crashed s tasks boxes alive i = tt

pub ran-IsCoherent :
    (w : Around) (fallback : Bool) (s : Main) (before behind : List Task) (g : Task) (r : Run)
    (boxes : List Box)
    → is_alive s.stage ≡ true
    → s.tasks ≡ before ++ g ∷ behind
    → TaskStep w s.cancelled g.program g.run r boxes
    → IsCoherent w fallback s
    → IsCoherent w fallback
        (record s { tasks = before ++ record g { run = r } ∷ behind; boxes = s.boxes ++ boxes })
ran-IsCoherent w fallback s before behind g r boxes alive at step i =
    let Fits = TaskFits w.checks s.cancelled in
    let (front, rest) = All-split Fits before (g ∷ behind) (subst (All Fits) at i.tasks) in
    let same : programs (before ++ record g { run = r } ∷ behind) ≡ programs s.tasks =
      programs-ran before behind g r ∙ ap programs (sym at) in
    record {
      tasks =
          All-append Fits before (record g { run = r } ∷ behind) front
            (TaskStep-IsCoherent w s.cancelled g.program g.run r boxes step rest.0, rest.1);
      started =
          subst (λ ps. (s.stage ≡ crashed) ⊎ (ps ++ left_over s.stage ≡ applications fallback))
            (sym same) i.started;
      stands = Stands-ran s.stage s _ _ alive i.stands;
    }

closed_agent-closed :
    (o : Outside) (agent : Option CapiAgent) (k : CapiAgent)
    → closed_agent o agent ≡ some k
    → k.keys ≡ none
unfolding closed_agent
closed_agent-closed o none k e = absurd (ground arith)
closed_agent-closed o (some agent) k e =
    let same : (close o agent).1 ≡ k = cc in subst (λ m. m.keys ≡ none) same (keys-close o agent)

pub finish-IsCoherent :
    (w : Around) (fallback : Bool) (s : Main)
    → s.stage ≡ cleaning
    → (s.timed_out ≡ true) ⊎ All IsDone s.tasks
    → IsCoherent w fallback s
    → IsCoherent w fallback (finish w.outside s)
unfolding finish
finish-IsCoherent w fallback s at why i =
    let (tray, told) = Stands-at w fallback s cleaning at i in
    record {
      tasks = i.tasks;
      started = elim (started_at w fallback s cleaning at i) [
        | inl e ↦ absurd (ground arith)
        | inr e ↦ inr e
      ];
      stands = (tray, told, why, closed_agent-closed w.outside s.agent);
    }

pub asked-Stands :
    (x : Stage) (s : Main) (agent : Option CapiAgent)
    → is_alive x ≡ true
    → Stands x s
    → Stands x (record s { agent = agent })
asked-Stands (launching ps) s agent alive i = i
asked-Stands looping s agent alive i = i
asked-Stands cleaning s agent alive i = i
asked-Stands finished s agent alive i = absurd (ground arith)
asked-Stands crashed s agent alive i = tt
