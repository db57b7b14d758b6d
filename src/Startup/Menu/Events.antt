-- ===== src/Startup/Menu/Events.antt =====
-- Which handlers the clicks on the menu of KeyBridge call.
use keybridge.Base.{
  ℕ, ◌≡◌, refl, ap, sym, ◌∙◌, List, [], ◌∷◌, ◌++◌, Bool, true, false, Option, none, some, ◌==◌,
  if◌then◌else◌, append-nil, append_assoc, arith, Bool-cases, inl, inr,
}
use keybridge.App.AppId.{menu_quit}
use keybridge.App.Clicks.{
  Handler, pub_key_view, wsl, vsock, vsock_check, cygwin, named_pipe, named_pipe_sc,
}
use keybridge.Startup.Menu.{
  Menu, Event, clicked, balloon, interrupt, called_with, event_loop, handler_of, register,
  register_all, pub_key_view_menu, wsl_menu, vsock_menu, cygwin_menu, named_pipe_menu,
}

-- The events up to the one that ends the loop, without it, and whether there was one.
abbrev pub until_end : List Event → List ℕ × Bool
until_end [] = ([], false)
until_end (clicked id ∷ events) =
    let (ids, ends) = until_end events in if id == menu_quit then ([], true) else (id ∷ ids, ends)
until_end (balloon ∷ events) = until_end events
until_end (interrupt ∷ events) = ([], true)

-- The handler that KeyBridge's items have, by their identifiers.
abbrev pub handler_by : Bool → ℕ → Option Handler
handler_by hv_socket id =
    if id == 3
    then some cygwin
    else if id == 4
    then some wsl
    else if id == 5
    then some named_pipe
    else if id == 6
    then if hv_socket then some vsock_check else none
    else if id == 7
    then some named_pipe_sc
    else if id == 10
    then some pub_key_view
    else if id == 11
    then if hv_socket then some vsock else none
    else none

abbrev pub all_called : (ℕ → Option Handler) → List ℕ → List Handler
all_called handler [] = []
all_called handler (id ∷ ids) = called_with (handler id) [] ++ all_called handler ids

handler_of-register_all :
    (hv_socket : Bool) (id : ℕ)
    → handler_of id (register_all hv_socket).handlers ≡ handler_by hv_socket id
unfolding handler_of register_all register pub_key_view_menu wsl_menu vsock_menu cygwin_menu
    named_pipe_menu
handler_of-register_all true id = ground arith
handler_of-register_all false id = ground arith

called_with-append :
    (h : Option Handler) (called : List Handler) → called_with h called ≡ called ++ called_with h []
called_with-append none called = sym (append-nil called)
called_with-append (some h) called = refl

loop_from :
    (m : Menu) (handler : ℕ → Option Handler)
    → ((id : ℕ) → handler_of id m.handlers ≡ handler id)
    → (events : List Event) (called : List Handler)
    → let (ids, ends) = until_end events in
      event_loop m events (record { called = called; cleaning_up = false })
      ≡ record { called = called ++ all_called handler ids; cleaning_up = ends }
unfolding event_loop
loop_from m handler same [] called =
    ap (λ c. record { called = c; cleaning_up = false }) (sym (append-nil called))
loop_from m handler same (balloon ∷ events) called = loop_from m handler same events called
loop_from m handler same (interrupt ∷ events) called =
    ap (λ c. record { called = c; cleaning_up = true }) (sym (append-nil called))
loop_from m handler same (clicked id ∷ events) called = elim (Bool-cases (id == menu_quit)) [
  | inl quit ↦
      rw quit (ap (λ c. record { called = c; cleaning_up = true }) (sym (append-nil called)))
  | inr other ↦ rw other (
      loop_from m handler same events (called_with (handler_of id m.handlers) called)
      ∙ ap
          (λ c. record {
            called = c ++ all_called handler (until_end events).0;
            cleaning_up = (until_end events).1;
          })
          (called_with-append (handler_of id m.handlers) called
            ∙ ap (λ h. called ++ called_with h []) (same id))
      ∙ ap (λ c. record { called = c; cleaning_up = (until_end events).1 })
          (append_assoc called (called_with (handler id) [])
            (all_called handler (until_end events).0)))
]

-- For any sequence of events, on the menu that all applications have built: the loop goes on to the cleanup
-- exactly if "Quit" was clicked or the process was interrupted. The handlers that it has called are those
-- of the items that were clicked before, in that order, each item having its own; the two items of VSock
-- are there exactly if Hyper-V sockets are. Clicks on the balloon and unknown identifiers call nothing.
pub event_loop-called :
    (hv_socket : Bool) (events : List Event)
    → let (ids, ends) = until_end events in
      event_loop (register_all hv_socket) events (record { called = []; cleaning_up = false })
      ≡ record { called = all_called (handler_by hv_socket) ids; cleaning_up = ends }
event_loop-called hv_socket events =
    loop_from (register_all hv_socket) (handler_by hv_socket) (handler_of-register_all hv_socket)
      events []
