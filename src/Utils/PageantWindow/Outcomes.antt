-- ===== src/Utils/PageantWindow/Outcomes.antt =====
-- What is left when the window of Pageant is made, and what becomes of a failure.
use keybridge.Base.{
  Bool, true, false, ◌+◌, ℕ, suc, ◌-◌, ◌%◌, ◌^◌, ◌≡◌, ◌≢◌, refl, List, [], ◌∷◌, ◌++◌, Option, none,
  some, arith, ◌==◌, All, Bool-cases, ◌⊎◌, inl, inr, map,
}
use keybridge.Base.Outcome.{Error, Result, ok, err, panic}
use keybridge.Utils.XAgent.{Screen, WindowCalls, checked, register, unregister}
use keybridge.Utils.XAgent.{Closing}
use keybridge.Utils.XAgent.Resources.{left_by}
use keybridge.Utils.PageantWindow.{
  create_window_ex, after_create, new_pageant, close, enter, start, is_last, event_loop,
}

-- How starting ends: with a window and its class, of which Close gives back what Windows lets go; with an error; or with a panic.
pub data Started (calls : WindowCalls) (s : Screen) (r : Result ℕ × Screen) : Type 0 where
  made :
      (t : Screen)
      → calls.handle ≢ 0
      → t ≡ record s { classes = suc s.classes; windows = suc s.windows }
      → ((w : Closing)
          → close w t ≡ record s {
            classes = left_by w.unregistered + s.classes;
            windows = left_by w.destroyed + s.windows;
          })
      → r ≡ (ok calls.handle, t)
      → Started calls s r
  refused :
      (e : Error)
      → (calls.class_name ≡ some e) ⊎ (calls.register_class ≡ some e)
      → r ≡ (err e, s)
      → Started calls s r
  crashed :
      calls.class_name ≡ none
      → calls.register_class ≡ none
      → calls.handle ≡ 0
      → r ≡ (panic, s)
      → Started calls s r

closed :
    (w : Closing) (s : Screen)
    → close w (record s { classes = suc s.classes; windows = suc s.windows }) ≡ record s {
      classes = left_by w.unregistered + s.classes;
      windows = left_by w.destroyed + s.windows;
    }
unfolding close
closed w s = answers w.destroyed w.unregistered
  where
    answers :
        (d u : Bool)
        → close
            (record { destroyed = d; unregistered = u })
            (record s { classes = suc s.classes; windows = suc s.windows })
          ≡ record s { classes = left_by u + s.classes; windows = left_by d + s.windows }
    answers true true = ground arith
    answers true false = ground arith
    answers false true = ground arith
    answers false false = ground arith

started :
    (c n r : Option Error) (h : ℕ) (e : Error) (s : Screen)
    → let calls : WindowCalls = record {
      class_name = c;
      window_name = n;
      register_class = r;
      handle = h;
      create_error = e;
    } in
      Started calls s (start calls s)
unfolding start new_pageant checked register unregister create_window_ex after_create enter
started (some x) n r h e s = refused x (inl refl) refl
started none n (some x) h e s = refused x (inr refl) refl
started none n none h e s = elim (Bool-cases (h == 0)) [
  | inl q ↦ crashed refl refl (ground arith) (rw q (ground arith))
  | inr q ↦
      made (record s { classes = suc s.classes; windows = suc s.windows }) (λ z. ground arith) refl
        (λ w. closed w s) (rw q refl)
]

-- How starting the application ends, in every case: with a window and its class, of which Close gives back the
-- window if Windows destroys it and the class if Windows unregisters it, and nothing if it refuses; with an
-- error of the class name or of the registration, and nothing made; or, when the window itself cannot be made,
-- with a panic, since NewPageant then returns neither a window nor an error. The error of CreateWindowEx is
-- never returned.
pub start-Started : (calls : WindowCalls) (s : Screen) → Started calls s (start calls s)
start-Started calls s =
    started calls.class_name calls.window_name calls.register_class calls.handle calls.create_error
      s

-- The message loop dispatches, in order, what came before the first result of GetMessage that is 0 or -1 in
-- its low 32 bits, and nothing behind it.
pub event_loop_stops :
    (before behind : List (ℕ × ℕ)) (ret message : ℕ)
    → All (λ got. (got.0 % 2 ^ 32 ≢ 0) × (got.0 % 2 ^ 32 ≢ 2 ^ 32 - 1)) before
    → (ret % 2 ^ 32 ≡ 0) ⊎ (ret % 2 ^ 32 ≡ 2 ^ 32 - 1)
    → event_loop (before ++ (ret, message) ∷ behind) ≡ map (λ got. got.1) before
unfolding event_loop is_last
event_loop_stops [] behind ret message others last = ground (arith, last)
event_loop_stops ((r, m) ∷ before) behind ret message others last =
    ground (arith, others, event_loop_stops before behind ret message others.1 last)
