-- ===== src/Utils/XAgent/Tests.antt =====
-- Runs and an instance of the theorem about utils/xagent.go.
use keybridge.Base.{true, false, ℕ, ◌≡◌, refl, none, inr, [], ◌∷◌}
use keybridge.Base.Outcome.{external, err}
use keybridge.Utils.XAgent.{Screen, WindowCalls, new_x_agent, close}
use keybridge.Utils.XAgent.Resources.{Left, new_x_agent-Left}

abbrev window : ℕ → WindowCalls
window handle = record {
  class_name = none;
  window_name = none;
  register_class = none;
  handle = handle;
  create_error = external 8;
}

abbrev empty : Screen
empty = record { classes = 0; windows = 0; sockets = 0; longs = [] }

second_fails_run :
    new_x_agent (inr 4000) (window 5) (window 0) empty
    ≡ (err (external 8), record { classes = 1; windows = 1; sockets = 1; longs = [] })
unfolding new_x_agent
second_fails_run = refl

-- On another thread, Windows refuses.
close_run :
    let made = (new_x_agent (inr 4000) (window 5) (window 6) empty).1 in
    close
      (record { destroyed = false; unregistered = false })
      (record { destroyed = true; unregistered = true })
      made
    ≡ record made { classes = 1; windows = 1 }
unfolding new_x_agent close
close_run = refl

agent-Left :
    Left (inr 4000) (window 5) (window 0) empty (new_x_agent (inr 4000) (window 5) (window 0) empty)
agent-Left = new_x_agent-Left (inr 4000) (window 5) (window 0) empty

port_run :
    (new_x_agent (inr 4000) (window 5) (window 6) empty).1.longs
    ≡ record { window = 5; index = 0xFFFFFFEB; value = 4000 } ∷ []
unfolding new_x_agent
port_run = refl
