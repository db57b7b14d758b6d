-- ===== src/Utils/PageantWindow/Tests.antt =====
-- Runs and instances of the theorems about the window of Pageant.
use keybridge.Base.{ℕ, ◌≡◌, ◌≢◌, refl, [], ◌∷◌, none, inl, arith, ◌%◌, ◌^◌, ◌-◌}
use keybridge.Base.Outcome.{eof, ok}
use keybridge.Utils.XAgent.{Screen, WindowCalls, register, checked, unregister}
use keybridge.Utils.PageantWindow.{new_pageant, create_window_ex, after_create, start, event_loop}
use keybridge.Utils.PageantWindow.Outcomes.{Started, start-Started, event_loop_stops}

-- CreateWindowEx fails.
abbrev failing : WindowCalls
failing = record {
  class_name = none;
  window_name = none;
  register_class = none;
  handle = 0;
  create_error = eof;
}

abbrev bare : Screen
bare = record { classes = 0; windows = 0; sockets = 0; longs = [] }

nil_run : new_pageant failing bare ≡ (ok none, bare)
unfolding new_pageant create_window_ex after_create checked register unregister
nil_run = refl

failing-Started : Started failing bare (start failing bare)
failing-Started = start-Started failing bare

loop_stopped : event_loop ((1, 74) ∷ (1, 15) ∷ (0, 18) ∷ (1, 20) ∷ []) ≡ 74 ∷ 15 ∷ []
loop_stopped =
    event_loop_stops ((1, 74) ∷ (1, 15) ∷ []) ((1, 20) ∷ []) 0 18
      ((one_not_zero, one_not_last), ((one_not_zero, one_not_last), tt)) (inl refl)
  where
    one_not_zero : ◌≢◌ {A = ℕ} (1 % 2 ^ 32) 0
    one_not_zero e = ground arith

    one_not_last : ◌≢◌ {A = ℕ} (1 % 2 ^ 32) (2 ^ 32 - 1)
    one_not_last e = ground arith
