-- ===== src/Utils/XAgent/Resources.antt =====
-- What making and closing the agent's windows leaves behind.
use keybridge.Base.{
  ◌∙◌, Bool, true, false, if◌then◌else◌, ℕ, suc, ◌-◌, ◌≡◌, refl, ap, subst, Option, none, some, ◌⊎◌,
  inl, inr, ◌==◌, arith, ◌+◌, [], ◌∷◌, ◌++◌, Bool-cases,
}
use keybridge.Base.Outcome.{Error, Result, ok, err, continue, ◌>>=◌}
use keybridge.Utils.XAgent.{
  Closing, publish, Screen, WindowCalls, XAgent, create_default_window, new_x_agent, close,
}

-- The screen with so many classes and windows, and listeners, more.
abbrev pub with_more : ℕ → ℕ → Screen → Screen
with_more windows sockets s = record s {
  classes = windows + s.classes;
  windows = windows + s.windows;
  sockets = sockets + s.sockets;
}

-- A window is made with its class, or fails with nothing left.
abbrev pub Made : WindowCalls → Screen → Type 0
Made calls s =
    (create_default_window calls s ≡ (ok calls.handle, with_more 1 0 s))
    ⊎ ((e : Error) × (create_default_window calls s ≡ (err e, s)))

made :
    (c n r : Option Error) (h : ℕ) (e : Error) (s : Screen)
    → Made
        (record {
          class_name = c;
          window_name = n;
          register_class = r;
          handle = h;
          create_error = e;
        })
        s
unfolding create_default_window
made (some x) n r h e s = inr (x, refl)
made none (some x) r h e s = inr (x, refl)
made none none (some x) h e s = inr (x, refl)
made none none none h e s = elim (Bool-cases (h == 0)) [
  | inl q ↦ inr (
    e,
    rw q (
        ap (λ n. (err e, record s { classes = n }))
          (let p : suc s.classes - 1 ≡ s.classes = omega arith in p)),
  )
  | inr q ↦ inl (rw q (ground arith))
]

create_default_window-Made : (calls : WindowCalls) (s : Screen) → Made calls s
create_default_window-Made calls s =
    made calls.class_name calls.window_name calls.register_class calls.handle calls.create_error s

-- The screen with the port in the user data of a window.
abbrev pub with_port : ℕ → ℕ → Screen → Screen
with_port window port s = record s {
  longs = s.longs ++ record { window = window; index = 0xFFFFFFEB; value = port } ∷ [];
}

-- One, unless it has gone.
abbrev pub left_by : Bool → ℕ
left_by gone = if gone then 0 else 1

closed :
    (w w' : Closing) (port window : ℕ) (s : Screen)
    → close w w' (with_port window port (with_more 2 1 s))
      ≡ with_port window port (record s {
        classes = left_by w.unregistered + left_by w'.unregistered + s.classes;
        windows = left_by w.destroyed + left_by w'.destroyed + s.windows;
        sockets = suc s.sockets;
      })
unfolding close
closed w w' port window s = answers w.destroyed w.unregistered w'.destroyed w'.unregistered
  where
    answers :
        (d u d' u' : Bool)
        → close
            (record { destroyed = d; unregistered = u })
            (record { destroyed = d'; unregistered = u' })
            (with_port window port (with_more 2 1 s))
          ≡ with_port window port (record s {
            classes = left_by u + left_by u' + s.classes;
            windows = left_by d + left_by d' + s.windows;
            sockets = suc s.sockets;
          })
    answers true true true true = ground arith
    answers true true true false = ground arith
    answers true true false true = ground arith
    answers true true false false = ground arith
    answers true false true true = ground arith
    answers true false true false = ground arith
    answers true false false true = ground arith
    answers true false false false = ground arith
    answers false true true true = ground arith
    answers false true true false = ground arith
    answers false true false true = ground arith
    answers false true false false = ground arith
    answers false false true true = ground arith
    answers false false true false = ground arith
    answers false false false true = ground arith
    answers false false false false = ground arith

-- What `NewXAgent` leaves: everything, of which closing takes what Windows gives back, and never the listener; or what was made
-- before the step that failed.
pub data Left (listened : Error ⊎ ℕ) (first second : WindowCalls) (s : Screen)
    (r : Result XAgent × Screen) : Type 0 where
  complete :
      (port : ℕ)
      → listened ≡ inr port
      → r.0 ≡ ok (record { cookie_win = first.handle; single_instance_win = second.handle })
      → r.1 ≡ with_port first.handle port (with_more 2 1 s)
      → ((w w' : Closing)
          → close w w' r.1
            ≡ with_port first.handle port (record s {
              classes = left_by w.unregistered + left_by w'.unregistered + s.classes;
              windows = left_by w.destroyed + left_by w'.destroyed + s.windows;
              sockets = suc s.sockets;
            }))
      → Left listened first second s r
  no_listener : (e : Error) → listened ≡ inl e → r ≡ (err e, s) → Left listened first second s r
  no_first :
      (e : Error)
      → create_default_window first (with_more 0 1 s) ≡ (err e, with_more 0 1 s)
      → r ≡ (err e, with_more 0 1 s)
      → Left listened first second s r
  no_second :
      (e : Error)
      → create_default_window second (with_more 1 1 s) ≡ (err e, with_more 1 1 s)
      → r ≡ (err e, with_more 1 1 s)
      → Left listened first second s r

after_second :
    (port : ℕ) (first second : WindowCalls) (s : Screen)
    → Left (inr port) first second s (
        continue
          (create_default_window second (with_more 1 1 s)).0
          (λ single. publish port first.handle single)
          (create_default_window second (with_more 1 1 s)).1)
unfolding close publish
after_second port first second s = elim (create_default_window-Made second (with_more 1 1 s)) [
  | inl e ↦ rw e (
      complete port refl refl (ground arith)
        (λ w w'. ap (close w w') (more_twice s) ∙ closed w w' port first.handle s))
  | inr (x, e) ↦ no_second x e (rw e refl)
]
  where
    more_twice :
        (s : Screen)
        → with_port first.handle port (with_more 1 0 (with_more 1 1 s))
          ≡ with_port first.handle port (with_more 2 1 s)
    more_twice s = ground arith

after_first :
    (port : ℕ) (first second : WindowCalls) (s : Screen)
    → Left (inr port) first second s (
        continue
          (create_default_window first (with_more 0 1 s)).0
          (λ cookie. create_default_window second >>= λ single. publish port cookie single)
          (create_default_window first (with_more 0 1 s)).1)
after_first port first second s = elim (create_default_window-Made first (with_more 0 1 s)) [
  | inl e ↦ rw (e, twice s) (after_second port first second s)
  | inr (x, e) ↦ no_first x e (rw e refl)
]
  where
    twice : (s : Screen) → with_more 1 0 (with_more 0 1 s) ≡ with_more 1 1 s
    twice s = ground arith

-- Making the agent's windows either succeeds, with one listener and two windows with their classes more,
-- and the listener's port in the user data of the first window. Closing then takes away those of the windows
-- that Windows destroys and those of the classes that it unregisters, and leaves the listener in any case.
-- Or it fails, and what was made before the step that failed is left: nothing if Listen failed; else the
-- listener, and the first window with its class if the second one failed.
pub new_x_agent-Left :
    (listened : Error ⊎ ℕ) (first second : WindowCalls) (s : Screen)
    → Left listened first second s (new_x_agent listened first second s)
unfolding new_x_agent
new_x_agent-Left (inl e) first second s = no_listener e refl refl
new_x_agent-Left (inr port) first second s =
    subst
      (λ s'. Left (inr port) first second s (
        (create_default_window first >>= λ cookie.
        create_default_window second >>= λ single. publish port cookie single)
          s'))
      (with_listener s) (after_first port first second s)
  where
    with_listener : (s : Screen) → with_more 0 1 s ≡ record s { sockets = suc s.sockets }
    with_listener s = ground arith
