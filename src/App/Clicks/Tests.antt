-- ===== src/App/Clicks/Tests.antt =====
-- Runs and instances of the theorems about the applications' clicks.
use keybridge.Base.{none, ◌≡◌, refl, [], ◌∷◌, true, false, some, inr}
use keybridge.App.Clicks.{
  User, Apps, Screen, named_pipe_sc, pub_key_view, on_click, ask, copy_title, offer,
  pipe_on_click_sc, pub_key_on_click, pipe_help_sc,
}
use keybridge.Utils.MessageBox.{mb_okcancel, message_box, int_of}
use keybridge.App.AppId.{app_winssh}

abbrev agreeing : User
agreeing = record { answer = λ boxes box. 1; converts = λ text. true }

abbrev apps : Apps
apps = record {
  wsl_running = true;
  wsl_help = "export SSH_AUTH_SOCK=/mnt/c/s";
  cygwin_running = true;
  sockfile = "s";
  pipe_running = true;
  vsock_running = false;
  agent_keys = some (inr ("ssh-rsa AQ== laptop" ∷ []));
  hv_service = false;
  elevation = some "denied";
}

abbrev screen : Screen
screen = record { boxes = []; copied = []; elevations = 0 }

copied_run :
    on_click named_pipe_sc agreeing apps screen
    ≡ some (record {
      boxes =
          record { title = copy_title app_winssh; text = pipe_help_sc; style = mb_okcancel } ∷ [];
      copied = pipe_help_sc ∷ [];
      elevations = 0;
    })
unfolding on_click pipe_on_click_sc offer ask message_box int_of
copied_run = refl

-- A click before the agent is set.
early_run : on_click pub_key_view agreeing (record apps { agent_keys = none }) screen ≡ none
unfolding on_click pub_key_on_click
early_run = refl

-- A text that cannot be converted
unread_run :
    on_click named_pipe_sc (record agreeing { converts = λ text. false }) apps screen ≡ some screen
unfolding on_click pipe_on_click_sc offer ask message_box
unread_run = refl
