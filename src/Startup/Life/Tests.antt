-- ===== src/Startup/Life/Tests.antt =====
-- Runs and instances of the theorems about the life of the process.
use keybridge.Base.{
  ◌≡◌, ◌≢◌, refl, sym, subst, map, append_assoc, Bool, List, [], ◌∷◌, ◌++◌, true, false, Option,
  none, some, arith, ◌⊎◌, inl, inr,
}
use keybridge.Base.Outcome.{Error, eof, ok}
use keybridge.App.AppId.{menu_quit}
use keybridge.App.Clicks.{cygwin}
use keybridge.Capi.{no_more}
use keybridge.App.Serving.{Serving, listening_first}
use keybridge.App.Serving.Loops.{
  named_pipe_app, pageant_app, x_shell_app, vsock_app, cygwin_app, wsl_app,
}
use keybridge.SshAgent.CapiAgent.{Outside}
use keybridge.Startup.Menu
use keybridge.Startup.Menu.{register_all}
use keybridge.Startup.Programs.{
  Program, pub_key_view_app, serving_app, applications, menu_of, pub_key_view_run,
}
use keybridge.Startup.Life.{
  starting, serving, boxed, done, Task, launching, cleaning, Main, main_first, Around, launch,
  show_tray, on_event, finish, ended_by, TaskStep, viewed, refused, ran, launched, shown, all_done,
  time_out, Reach, here, next,
}
use keybridge.Startup.Life.Stages.{IsCoherent}
use keybridge.Startup.Life.Coherent.{Reach-IsCoherent}
use keybridge.Startup.Life.Cleanup.{blind_app_ended}
use keybridge.Startup.Life.Ending.{EndsEarly, cleanup-EndsEarly}

abbrev outside : Outside
outside = record {
  api = record {
    acquire_private_key = λ context. record {
      returned = record { value = 0; last_error = 1 };
      handle = 0;
      caller_must_free = 0;
    };
    sign_message = λ alg context bytes. (record { value = 0; last_error = 1 }, bytes);
    duplicate_context = λ context. record { value = context; last_error = 0 };
    free_context = λ context. none;
    set_property = λ call. record { value = 0; last_error = 0 };
    free_object = λ handle. 0;
    size_address = 64;
    parse_pkcs7 = λ message. inl eof;
  };
  disable_pin_cache = false;
  store = record { open_error = none; entries = []; end = no_more };
  codec = record { unmarshal = λ bytes. inl eof; marshal = λ pair. [] };
  join = λ home name. name;
  user_home_dir = inr "home";
  read_file = λ name. inl eof;
  parse_authorized_key = λ bytes. inl eof;
  new_cert_signer = λ c signer. inr signer;
  check_service = false;
  service_running = inr true;
  answer = 0;
}

abbrev is_eof : Error → Bool
is_eof eof = true
is_eof e = false

-- The tray cannot be added, so the cleanup follows at once.
abbrev around : Around
around = record {
  checks = record {
    is_listener_closed = is_eof;
    xshell_handshake = λ conn. ok tt;
    cygwin_handshake = λ conn. ok tt;
    same_user = λ conn. ok true;
    window_destroyed = false;
  };
  text_of = λ e. "EOF";
  hv_socket = true;
  add_error = some "no tray";
  outside = outside;
}

abbrev launch_all : List Program → Main → Main
launch_all [] s = s
launch_all (p ∷ ps) s = launch_all ps (launch true p ps s)

reach_launched :
    (s t : Main) (ps : List Program)
    → Reach around s t
    → t.stage ≡ launching ps
    → Reach around s (launch_all ps t)
unfolding launch
reach_launched s t [] r at = r
reach_launched s t (p ∷ ps) r at =
    reach_launched s (launch true p ps t) ps (next r (launched p ps at refl)) refl

abbrev all_launched : Main
all_launched = launch_all (applications false) (main_first false none)

-- The menu is the one of the menu's own model.
launched_menu : all_launched.menu ≡ register_all true
unfolding launch applications menu_of register_all
launched_menu = refl

-- A click on an item calls its handler, and one on "Quit" cleans up.
clicked_called : (on_event (Menu.clicked 3) all_launched).called ≡ cygwin ∷ []
unfolding launch applications menu_of on_event register_all
clicked_called = refl

clicked_quit : (on_event (Menu.clicked menu_quit) all_launched).tray_closed ≡ true
unfolding launch applications menu_of on_event register_all
clicked_quit = refl

abbrev cleaned : Main
cleaned = show_tray (some "no tray") all_launched

reach_cleaned : Reach around (main_first false none) cleaned
unfolding launch applications
reach_cleaned =
    next
      (reach_launched (main_first false none) (main_first false none) (applications false) here
        refl)
      (shown refl refl)

-- The applications are still to begin when the time is over.
late : IsCoherent around false (finish outside (record cleaned { timed_out = true }))
unfolding launch applications show_tray
late =
    Reach-IsCoherent around false none (finish outside (record cleaned { timed_out = true }))
      (next reach_cleaned (time_out refl refl))

abbrev not_begun : Program → Task
not_begun p = record { program = p; run = starting }

abbrev given_up : Program → Task
given_up p = record { program = p; run = done none }

-- Every application's Run returns nil before its loop, one after the other.
abbrev give_up_all : List Program → List Task → Main → Main
give_up_all [] before t = t
give_up_all (p ∷ ps) before t =
    give_up_all ps (before ++ given_up p ∷ [])
      (record t { tasks = before ++ given_up p ∷ map not_begun ps; boxes = t.boxes ++ [] })

give_up_one : (p : Program) → TaskStep around true p starting (done none) []
unfolding ended_by pub_key_view_run
give_up_one pub_key_view_app = viewed refl refl refl
give_up_one (serving_app a) = refused a none refl refl refl

reach_given_up :
    (s t : Main) (ps : List Program) (before : List Task)
    → Reach around s t
    → t.stage ≡ cleaning
    → t.cancelled ≡ true
    → t.tasks ≡ before ++ map not_begun ps
    → Reach around s (give_up_all ps before t)
reach_given_up s t [] before r at told split = r
reach_given_up s t (p ∷ ps) before r at told split =
    reach_given_up s
      (record t { tasks = before ++ given_up p ∷ map not_begun ps; boxes = t.boxes ++ [] }) ps
      (before ++ given_up p ∷ [])
      (next r (
        ran before (map not_begun ps) (not_begun p) (done none) [] (rw at refl) split
          (subst (λ k. TaskStep around k p starting (done none) []) (sym told) (give_up_one p))
          refl))
      at told (sym (append_assoc before (given_up p ∷ []) (map not_begun ps)))

abbrev ended : Main
ended = finish outside (give_up_all (applications false) [] cleaned)

reach_ended : Reach around (main_first false none) ended
unfolding launch applications show_tray
reach_ended =
    next
      (reach_given_up (main_first false none) cleaned (applications false) [] reach_cleaned refl
        refl refl)
      (all_done refl
        (
          (none, refl),
          (
            (none, refl),
            ((none, refl), ((none, refl), ((none, refl), ((none, refl), ((none, refl), tt))))),
          ),
        )
        refl)

xshell_ended :
    (last : Option Serving) × (done none ≡ done last)
    × ((last ≡ none) ⊎ ((s : Serving) × (last ≡ some s) × (s.errors ≢ [])))
unfolding launch applications show_tray finish
xshell_ended =
    blind_app_ended around false none ended
      (map given_up (
        pub_key_view_app
        ∷ serving_app (wsl_app false)
        ∷ serving_app vsock_app
        ∷ serving_app cygwin_app
        ∷ serving_app named_pipe_app
        ∷ serving_app pageant_app
        ∷ []))
      [] x_shell_app (done none) reach_ended refl refl refl refl

-- The pipe serves a client when the cleanup begins; Xshell's listener could not be made, as a box says.
abbrev pipe_serves : Main
pipe_serves = record (main_first false none) {
  stage = cleaning;
  cancelled = true;
  tasks =
      record {
        program = serving_app named_pipe_app;
        run = serving (record listening_first { handlers = 1; served = 7 ∷ [] });
      }
      ∷ record { program = serving_app x_shell_app; run = boxed none }
      ∷ [];
}

pipe_serves-EndsEarly : EndsEarly around pipe_serves
pipe_serves-EndsEarly =
    cleanup-EndsEarly around eof pipe_serves refl refl refl
      ((named_pipe_app, refl, refl, λ e. ground (arith, e)), (tt, tt))
