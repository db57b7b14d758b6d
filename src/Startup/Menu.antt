-- ===== src/Startup/Menu.antt =====
-- menu.go, the Menu methods of the applications, and the event loop of main.go.
pub mod Events
use Prim.Native.String.{◌++◌ as str_append}
use keybridge.Base.{
  ℕ, String, List, [], ◌∷◌, ◌++◌, Bool, true, false, Option, none, some, ◌==◌, if◌then◌else◌,
}
use keybridge.App.AppId.{
  app_cygwin, app_wsl, app_winssh, app_hyperv, app_securecrt, app_pubkey, app_wsl2, menu_quit,
  app_id_to_name,
}
use keybridge.App.Clicks.{
  Handler, pub_key_view, wsl, vsock, vsock_check, cygwin, named_pipe, named_pipe_sc,
}

-- The items of the tray's menu, from the top, and the map of handlers: the newest of an identifier is found first.
pub record Menu : Type 0 where
  pub items : List (String × ℕ)
  pub handlers : List (ℕ × Handler)

-- `NewMenu`
abbrev pub new_menu : Menu
new_menu = record { items = []; handlers = [] }

-- `(*Menu).Register`
pub register : ℕ → String → Handler → Menu → Menu
register id name handler m = record {
  items = m.items ++ (name, id) ∷ [];
  handlers = (id, handler) ∷ m.handlers;
}

-- The lookup of `(*Menu).Handle`
pub handler_of : ℕ → List (ℕ × Handler) → Option Handler
handler_of id [] = none
handler_of id ((k, h) ∷ hs) = let rest = handler_of id hs in if id == k then some h else rest

abbrev settings_of : ℕ → String
settings_of id = str_append "Show " (str_append (app_id_to_name id) " Settings")

-- `(*PubKeyView).Menu`
unfoldable pub pub_key_view_menu : Menu → Menu
unfolding register
pub_key_view_menu = register app_pubkey "Show Public Keys" pub_key_view

-- `(*WSL).Menu`
unfoldable pub wsl_menu : Menu → Menu
unfolding register
wsl_menu = register app_wsl (settings_of app_wsl) wsl

-- `(*VSock).Menu`, by what CheckHvSocket says
unfoldable pub vsock_menu : Bool → Menu → Menu
unfolding register
vsock_menu false m = m
vsock_menu true m =
    register app_hyperv "Check Hyper-V Agent Status" vsock_check
      (register app_wsl2 "Show WSL2 / Linux On Hyper-V Settings" vsock m)

-- `(*Cygwin).Menu`
unfoldable pub cygwin_menu : Menu → Menu
unfolding register
cygwin_menu = register app_cygwin (settings_of app_cygwin) cygwin

-- `(*NamedPipe).Menu`
unfoldable pub named_pipe_menu : Menu → Menu
unfolding register
named_pipe_menu m =
    register app_securecrt (settings_of app_securecrt) named_pipe_sc
      (register app_winssh (settings_of app_winssh) named_pipe m)

-- The loop of `main` over the applications, as far as it builds the menu; `(*Pageant).Menu` and
-- `(*XShell).Menu` add nothing.
unfoldable pub register_all : Bool → Menu
unfolding pub_key_view_menu wsl_menu vsock_menu cygwin_menu named_pipe_menu
register_all hv_socket =
    named_pipe_menu (cygwin_menu (vsock_menu hv_socket (wsl_menu (pub_key_view_menu new_menu))))

-- What comes out of the `select` of the event loop: a click on an item, on the balloon, or the interrupt.
pub data Event : Type 0 where
  clicked : ℕ → Event
  balloon interrupt : Event

-- The handlers that were called, oldest first, and whether the loop has gone on to the cleanup.
pub record Loop : Type 0 where
  pub called : List Handler
  pub cleaning_up : Bool

abbrev called_with : Option Handler → List Handler → List Handler
called_with none called = called
called_with (some h) called = called ++ h ∷ []

-- The event loop, over the events that come.
unfoldable pub event_loop : Menu → List Event → Loop → Loop
unfolding handler_of
event_loop m [] l = l
event_loop m (clicked id ∷ events) l =
    let rest =
      event_loop m events (record l { called = called_with (handler_of id m.handlers) l.called }) in
    if id == menu_quit then record l { cleaning_up = true } else rest
event_loop m (balloon ∷ events) l = event_loop m events l
event_loop m (interrupt ∷ events) l = record l { cleaning_up = true }
