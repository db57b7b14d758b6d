-- ===== src/Startup/Life.antt =====
-- main.go from the start of the applications on: a goroutine for each
-- application, the event loop, and the cleanup with its time limit. The handlers that an application has
-- left running when its Run returns are not followed any further.
pub mod Tasks
pub mod Stages
pub mod Coherent
pub mod Cleanup
pub mod Ending
mod Tests
use Prim.Native.String.{◌++◌ as str_append}
use keybridge.Base.{
  String, ◌≡◌, List, [], ◌∷◌, ◌++◌, Bool, true, false, Option, none, some, if◌then◌else◌, All,
}
use keybridge.Base.Outcome.{Error}
use keybridge.App.AppId.{menu_quit, app_id_to_name}
use keybridge.App.Clicks.{Handler}
use keybridge.Utils.MessageBox.{Box, mb_icon_error, mb_icon_warning}
use keybridge.App.Serving
use keybridge.App.Serving.{Serving, listening_first, returned}
use keybridge.App.Serving.Loops.{Checks, Application, loop_of}
use keybridge.SshAgent.CapiAgent
use keybridge.SshAgent.CapiAgent.{Outside, CapiAgent}
use keybridge.Startup.Menu.{Menu, new_menu, Event, event_loop}
use keybridge.Startup.Programs.{
  Program, pub_key_view_app, serving_app, applications, app_id, menu_of, pub_key_view_run,
}

-- An application's goroutine: in its Run before the accept loop, in the loop, with the box for Run's error
-- on the screen, and behind `wg.Done()`; the last two with the loop that Run has left, if it had come to it.
pub data Run : Type 0 where
  starting : Run
  serving : Serving → Run
  boxed done : Option Serving → Run

pub record Task : Type 0 where
  pub program : Program
  pub run : Run

-- Where `main` stands: starting the applications that are left, in the event loop, in the `select` of the
-- cleanup, and behind its end; or a panic has ended the process.
pub data Stage : Type 0 where
  launching : List Program → Stage
  looping cleaning finished crashed : Stage

-- `boxes` are those of `main` and of its goroutines, `agent` the certificate agent if there is one.
pub record Main : Type 0 where
  pub stage : Stage
  pub menu : Menu
  pub tasks : List Task
  pub called : List Handler
  pub boxes : List Box
  pub tray_closed : Bool
  pub cancelled : Bool
  pub timed_out : Bool
  pub agent : Option CapiAgent

abbrev pub main_first : Bool → Option CapiAgent → Main
unfolding applications
main_first fallback agent = record {
  stage = launching (applications fallback);
  menu = new_menu;
  tasks = [];
  called = [];
  boxes = [];
  tray_closed = false;
  cancelled = false;
  timed_out = false;
  agent = agent;
}

-- What is not `main`'s own: the tests of the accept loops, the text of an error, whether there are Hyper-V
-- sockets, the error of `sysTray.Add`, and what the certificate agent uses.
pub record Around : Type 0 where
  pub checks : Checks
  pub text_of : Error → String
  pub hv_socket : Bool
  pub add_error : Option String
  pub outside : Outside

-- One round of the loop over the applications.
pub launch : Bool → Program → List Program → Main → Main
unfolding menu_of
launch hv_socket p rest s = record s {
  stage = launching rest;
  menu = menu_of hv_socket p s.menu;
  tasks = s.tasks ++ record { program = p; run = starting } ∷ [];
}

-- `cleanup:` with `sysTray.Close()` and `cancel()`
pub clean_up : Main → Main
clean_up s = record s { stage = cleaning; tray_closed = true; cancelled = true }

add_tray : Option String → Main → Main
unfolding clean_up
add_tray none s = record s { stage = looping }
add_tray (some e) s = clean_up (record s {
  boxes = s.boxes ++ record { title = "Error:"; text = e; style = mb_icon_error } ∷ [];
})

-- The item "Quit", and `sysTray.Add()`
pub show_tray : Option String → Main → Main
unfolding add_tray
show_tray error s =
    add_tray error
      (record s { menu = record (s.menu) { items = s.menu.items ++ ("Quit", menu_quit) ∷ [] } })

-- One round of the event loop.
pub on_event : Event → Main → Main
unfolding clean_up event_loop
on_event e s =
    let l = event_loop s.menu (e ∷ []) (record { called = s.called; cleaning_up = false }) in
    if l.cleaning_up then clean_up s else record s { called = l.called }

-- The deferred `cag.Close()`
closed_agent : Outside → Option CapiAgent → Option CapiAgent
closed_agent o none = none
closed_agent o (some agent) = some (CapiAgent.close o agent).1

-- The end of `main`
pub finish : Outside → Main → Main
unfolding closed_agent
finish o s = record s { stage = finished; agent = closed_agent o s.agent }

-- What an application's goroutine does with the result of Run, and the boxes that it shows.
pub ended_by : Around → Program → Option Error → Option Serving → Run × List Box
unfolding app_id
ended_by w p none last = (done last, [])
ended_by w p (some e) last = (
  boxed last,
  record {
    title = str_append (app_id_to_name (app_id p)) " Error:";
    text = w.text_of e;
    style = mb_icon_warning;
  }
      ∷ [],
)

-- A step of an application's goroutine. Its loop learns that the context is cancelled when it is.
pub data TaskStep (w : Around) (cancelled : Bool) (p : Program) (r r' : Run) (boxes : List Box)
    : Type 0 where
  viewed :
      p ≡ pub_key_view_app
      → r ≡ starting
      → (r', boxes) ≡ ended_by w p (pub_key_view_run (some tt) none).0 none
      → TaskStep w cancelled p r r' boxes
  entered :
      (a : Application)
      → p ≡ serving_app a
      → r ≡ starting
      → r' ≡ serving listening_first
      → boxes ≡ []
      → TaskStep w cancelled p r r' boxes
  refused :
      (a : Application) (result : Option Error)
      → p ≡ serving_app a
      → r ≡ starting
      → (r', boxes) ≡ ended_by w p result none
      → TaskStep w cancelled p r r' boxes
  moved :
      (a : Application) (s t : Serving)
      → p ≡ serving_app a
      → r ≡ serving s
      → Serving.Step (loop_of a w.checks) s t
      → (t.cancelled ≡ true → cancelled ≡ true)
      → r' ≡ serving t
      → boxes ≡ []
      → TaskStep w cancelled p r r' boxes
  left :
      (s : Serving) (result : Option Error)
      → r ≡ serving s
      → s.phase ≡ returned result
      → (r', boxes) ≡ ended_by w p result (some s)
      → TaskStep w cancelled p r r' boxes
  dismissed :
      (last : Option Serving)
      → r ≡ boxed last
      → r' ≡ done last
      → boxes ≡ []
      → TaskStep w cancelled p r r' boxes

-- While the process runs.
abbrev pub is_alive : Stage → Bool
is_alive (launching ps) = true
is_alive looping = true
is_alive cleaning = true
is_alive finished = false
is_alive crashed = false

-- Behind `wg.Done()`
abbrev pub IsDone : Task → Type 0
IsDone g = (last : Option Serving) × (g.run ≡ done last)

-- A step of `main`, or of one of its goroutines. Requests may change the certificate agent in any way.
pub data Step (w : Around) (s t : Main) : Type 0 where
  launched :
      (p : Program) (rest : List Program)
      → s.stage ≡ launching (p ∷ rest)
      → t ≡ launch w.hv_socket p rest s
      → Step w s t
  shown : s.stage ≡ launching [] → t ≡ show_tray w.add_error s → Step w s t
  event : (e : Event) → s.stage ≡ looping → t ≡ on_event e s → Step w s t
  ran :
      (before behind : List Task) (g : Task) (r : Run) (boxes : List Box)
      → is_alive s.stage ≡ true
      → s.tasks ≡ before ++ g ∷ behind
      → TaskStep w s.cancelled g.program g.run r boxes
      → t ≡ record s { tasks = before ++ record g { run = r } ∷ behind; boxes = s.boxes ++ boxes }
      → Step w s t
  asked :
      (k k' : CapiAgent)
      → is_alive s.stage ≡ true
      → s.agent ≡ some k
      → t ≡ record s { agent = some k' }
      → Step w s t
  died :
      (before behind : List Task) (p : Program) (last : Serving)
      → is_alive s.stage ≡ true
      → s.tasks ≡ before ++ record { program = p; run = serving last } ∷ behind
      → last.phase ≡ Serving.crashed
      → t ≡ record s { stage = crashed }
      → Step w s t
  all_done : s.stage ≡ cleaning → All IsDone s.tasks → t ≡ finish w.outside s → Step w s t
  time_out : s.stage ≡ cleaning → t ≡ finish w.outside (record s { timed_out = true }) → Step w s t

-- Any interleaving of them.
pub data Reach (w : Around) (s : Main) : Main → Type 0 where
  here : Reach w s s
  next : {t u : Main} → Reach w s t → Step w t u → Reach w s u

pub Reach-append : {w : Around} {s t u : Main} → Reach w s t → Reach w t u → Reach w s u
Reach-append r here = r
Reach-append r (next more st) = next (Reach-append r more) st
