-- ===== src/Startup/Programs.antt =====
-- The applications that main.go starts, with the AppId and Menu methods of package app and PubKeyView.Run of
-- app/pubkey.go.
use keybridge.Base.{ℕ, List, [], ◌∷◌, Bool, Option, none, some}
use keybridge.Base.Outcome.{Error, errorf}
use keybridge.App.AppId.{
  app_cygwin, app_wsl, app_winssh, app_hyperv, app_pageant, app_xshell, app_pubkey,
}
use keybridge.App.Serving.Loops.{
  Application, named_pipe_app, pageant_app, x_shell_app, vsock_app, cygwin_app, wsl_app,
}
use keybridge.Startup.Menu.{
  Menu, pub_key_view_menu, wsl_menu, vsock_menu, cygwin_menu, named_pipe_menu,
}

pub data Program : Type 0 where
  pub_key_view_app : Program
  serving_app : Application → Program

-- `applications`, by whether the WSL application listens on the loopback address
unfoldable pub applications : Bool → List Program
applications fallback =
    pub_key_view_app
    ∷ serving_app (wsl_app fallback)
    ∷ serving_app vsock_app
    ∷ serving_app cygwin_app
    ∷ serving_app named_pipe_app
    ∷ serving_app pageant_app
    ∷ serving_app x_shell_app
    ∷ []

-- The `AppId` methods
unfoldable pub app_id : Program → ℕ
app_id pub_key_view_app = app_pubkey
app_id (serving_app named_pipe_app) = app_winssh
app_id (serving_app pageant_app) = app_pageant
app_id (serving_app x_shell_app) = app_xshell
app_id (serving_app vsock_app) = app_hyperv
app_id (serving_app cygwin_app) = app_cygwin
app_id (serving_app (wsl_app fallback)) = app_wsl

-- The `Menu` methods; those of Pageant and Xshell are empty.
unfoldable pub menu_of : Bool → Program → Menu → Menu
unfolding pub_key_view_menu wsl_menu vsock_menu cygwin_menu named_pipe_menu
menu_of hv_socket pub_key_view_app = pub_key_view_menu
menu_of hv_socket (serving_app named_pipe_app) = named_pipe_menu
menu_of hv_socket (serving_app pageant_app) = λ m. m
menu_of hv_socket (serving_app x_shell_app) = λ m. m
menu_of hv_socket (serving_app vsock_app) = vsock_menu hv_socket
menu_of hv_socket (serving_app cygwin_app) = cygwin_menu
menu_of hv_socket (serving_app (wsl_app fallback)) = wsl_menu

-- `(*PubKeyView).Run`, by the agent in the context: its result, and the agent that the view keeps.
unfoldable pub pub_key_view_run : {A : Type 0} → Option A → Option A → Option Error × Option A
pub_key_view_run none kept = (some (errorf "PubKeyView: no agent in context" []), kept)
pub_key_view_run (some agent) kept = (none, some agent)
