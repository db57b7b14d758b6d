-- ===== src/Startup/Begin/Outcomes.antt =====
-- What `main` goes on with.
use keybridge.Base.{
  ℕ, String, ◌≡◌, ◌≢◌, refl, subst, ap, ◌∙◌, List, [], ◌∷◌, ◌++◌, Bool, true, false, Option, none,
  some, ◌⊎◌, inl, inr, arith, Bool-cases, if◌then◌else◌,
}
use keybridge.Base.Outcome.{Result, ok}
use text.Mathlib.Text.{◌==◌ as str_eq}
use text.Mathlib.TextEquality.{eq_iff}
use keybridge.SshAgent.HyperV.{Links, over_link}
use keybridge.SshAgent.HyperV.Sessions.{
  IsIdle, Linked, linked, unlinked, over_link-IsIdle, over_link-Linked,
}
use keybridge.Utils.Desktop.{register_notifier}
use keybridge.Utils.Shell.{behind_first}
use keybridge.Startup.Begin.{
  LogFiles, Output, System, Flags, Begun, relays, exits, parsed, installs, fails, serves, Ground,
  is_ok, agent_title, init_systray, shown_tray, serve, relay_args, dispatch, begin, init_debug_log,
}

-- The first argument is another one, or there is none.
abbrev pub IsNotRelay : List String → Type 0
IsNotRelay args = (program : String) (rest : List String) → args ≢ program ∷ "relay" ∷ rest

-- What each of the ways to go on says of the command line, the host, the tray and what has changed.
abbrev pub Outcome : List String → System → Ground → Begun × Ground → Type 0
Outcome args w s (relays rest, t) =
    ((program : String) × (args ≡ program ∷ "relay" ∷ rest)) × (t ≡ s)
Outcome args w s (exits code, t) =
    IsNotRelay args × (w.parse (behind_first args) ≡ inl code) × (t ≡ s)
Outcome args w s (installs, t) =
    IsNotRelay args
    × ((flags : Flags) × (w.parse (behind_first args) ≡ inr flags)
        × (flags.install_hv_service ≡ true))
    × (t.links ≡ s.links)
    × (t.desktop ≡ s.desktop)
Outcome args w s (fails box, t) =
    IsNotRelay args
    × ((flags : Flags) × (w.parse (behind_first args) ≡ inr flags)
        × (flags.install_hv_service ≡ false))
    × ((w.icon_error ≡ some box.text)
        ⊎ ((w.icon_error ≡ none) × (w.notifier_error ≡ some box.text)))
    × IsIdle t.links
    × (t.desktop ≡ s.desktop)
Outcome args w s (serves title hv pin, t) =
    IsNotRelay args
    × ((flags : Flags) × (w.parse (behind_first args) ≡ inr flags)
        × (flags.install_hv_service ≡ false)
        × (pin ≡ flags.disable_pin_cache))
    × (title ≡ (if hv then "KeyBridge v1.0.8 (Hyper-V)" else "KeyBridge v1.0.8"))
    × (((hv ≡ true) × (conn : ℕ) × (t.links.opened ≡ s.links.opened ++ conn ∷ []))
        ⊎ ((hv ≡ false) × (t.links.opened ≡ s.links.opened)))
    × IsIdle t.links
    × (t.desktop.has_notifier ≡ true)

agent_title-hv :
    (hv : Bool) → agent_title hv ≡ (if hv then "KeyBridge v1.0.8 (Hyper-V)" else "KeyBridge v1.0.8")
unfolding agent_title
agent_title-hv true = refl
agent_title-hv false = refl

-- Whether a connection was opened.
abbrev Probed : Bool → Links → Links → Type 0
Probed hv l l' =
    ((hv ≡ true) × (conn : ℕ) × (l'.opened ≡ l.opened ++ conn ∷ []))
    ⊎ ((hv ≡ false) × (l'.opened ≡ l.opened))

Linked-Probed :
    (l : Links) (r : Result (Unit {0}) × Links)
    → Linked (λ conn. ok tt) l r
    → Probed (is_ok r.0) l r.1
Linked-Probed l r (linked conn e opened) = inl (ap is_ok e, conn, opened)
Linked-Probed l r (unlinked x e opened) = inr (ap is_ok e, opened)

module _ (args : List String) (w : System) (s : Ground) (flags : Flags) (no_relay : IsNotRelay args)
    (of_args : w.parse (behind_first args) ≡ inr flags)
    (serving : flags.install_hv_service ≡ false) where
  tray-Outcome :
      (hv : Bool) (l : Links) (icon notifier : Option String) (output : Output)
      → w.icon_error ≡ icon
      → w.notifier_error ≡ notifier
      → Probed hv s.links l
      → IsIdle l
      → Outcome args w s (
          let (tray, d) = init_systray icon notifier hv s.desktop in
          (shown_tray flags hv tray, record { output = output; links = l; desktop = d }))
  unfolding init_systray shown_tray register_notifier
  tray-Outcome hv l (some e) notifier output i n probed idle =
      (no_relay, (flags, of_args, serving), inl i, idle, refl)
  tray-Outcome hv l none (some e) output i n probed idle =
      (no_relay, (flags, of_args, serving), inr (i, n), idle, refl)
  tray-Outcome hv l none none output i n probed idle =
      (no_relay, (flags, of_args, serving, refl), agent_title-hv hv, probed, idle, refl)

relayed :
    (args rest : List String)
    → relay_args args ≡ some rest
    → (program : String) × (args ≡ program ∷ "relay" ∷ rest)
unfolding relay_args
relayed [] rest e = absurd (ground arith)
relayed (program ∷ []) rest e = absurd (ground arith)
relayed (program ∷ command ∷ more) rest e = elim (Bool-cases (str_eq command "relay")) [
  | inl q ↦
      let named : command ≡ "relay" = (eq_iff command "relay").0 q in
      let same : more ≡ rest = ground (arith, q) in
      (
        program,
        ap (λ (c : String). program ∷ c ∷ more) named
            ∙ ap (λ (l : List String). program ∷ "relay" ∷ l) same,
      )
  | inr q ↦ absurd (ground (arith, q))
]

not_relayed : (args : List String) → relay_args args ≡ none → IsNotRelay args
unfolding relay_args
not_relayed args e program rest same =
    let none_there : relay_args (program ∷ "relay" ∷ rest) ≡ none =
      subst (λ l. relay_args l ≡ none) same e in
    ground (arith, none_there)

-- Behind the command line, by the flag -i.
flag-Outcome :
    (args : List String) (w : System) (s : Ground) (flags : Flags) (b : Bool)
    → IsNotRelay args
    → w.parse (behind_first args) ≡ inr flags
    → flags.install_hv_service ≡ b
    → IsIdle s.links
    → let s' = record s { output = init_debug_log w.files s.output } in
      Outcome args w s (if b then (installs, s') else serve w flags s')
unfolding serve
flag-Outcome args w s flags true e p q idle = (e, (flags, p, q), refl, refl)
flag-Outcome args w s flags false e p q idle =
    let op : ℕ → Result (Unit {0}) = λ conn. ok tt in
    let (r, l) = over_link w.parent op s.links in
    tray-Outcome args w s flags e p q (is_ok r) l w.icon_error w.notifier_error
      (init_debug_log w.files s.output) refl refl
      (Linked-Probed s.links (r, l) (over_link-Linked w.parent op s.links))
      (over_link-IsIdle w.parent op s.links idle)

parsed-Outcome :
    (args : List String) (w : System) (s : Ground) (r : ℕ ⊎ Flags)
    → IsNotRelay args
    → w.parse (behind_first args) ≡ r
    → IsIdle s.links
    → Outcome args w s (parsed w r s)
unfolding parsed
parsed-Outcome args w s (inl code) e p idle = (e, p, refl)
parsed-Outcome args w s (inr flags) e p idle =
    flag-Outcome args w s flags flags.install_hv_service e p refl idle

dispatch-Outcome :
    (args : List String) (w : System) (s : Ground) (command : Option (List String))
    → relay_args args ≡ command
    → IsIdle s.links
    → Outcome args w s (dispatch args command w s)
unfolding dispatch
dispatch-Outcome args w s (some rest) e idle = (relayed args rest e, refl)
dispatch-Outcome args w s none e idle =
    parsed-Outcome args w s (w.parse (behind_first args)) (not_relayed args e) refl idle

-- How `main` begins, for any command line, if no connection to the host is open: as the relay exactly if
-- the first argument is "relay", with the arguments behind it and nothing changed. Else what flag.Parse makes
-- of the arguments decides: it ends the process, with nothing changed; or with its flags `main` goes on to
-- installService, exactly if -i is set; or to a box for the error of the icon or of the notifier, with no
-- notifier registered; or to the applications, with a tray whose title says whether the host was reached over
-- Hyper-V, the flag for the PIN cache passed on, and the notifier registered. The connection to the host that
-- this took is closed again.
pub begin-Outcome :
    (args : List String) (w : System) (s : Ground)
    → IsIdle s.links
    → Outcome args w s (begin args w s)
unfolding begin
begin-Outcome args w s idle = dispatch-Outcome args w s (relay_args args) refl idle

-- The log file gets all that the Go runtime writes, or none of it.
pub init_debug_log-whole :
    (w : LogFiles) (s : Output)
    → let t = init_debug_log w s in
      ((t.go_output ≡ s.go_output) × (t.go_error ≡ s.go_error))
      ⊎ ((t.go_error ≡ t.go_output)
          × (t.output_handle ≡ t.go_output)
          × (t.error_handle ≡ t.go_output))
unfolding init_debug_log
init_debug_log-whole w s = ground arith
