-- ===== src/Startup/Install/Boxes.antt =====
-- What the user is told about the installation, and what it leaves.
use keybridge.Base.{
  suc, ◌≡◌, refl, String, Bool, true, false, not, Option, none, some, ◌⊎◌, if◌then◌else◌, arith,
}
use keybridge.Startup.Install.{
  Windows, State, is_admin, report, set_value, create_key, open_key, run_with_privilege, elevated,
  install_service,
}

-- The first error of the installation by an administrator.
abbrev pub first_error :
    Option String → Option String → Option String → Option String → Option String
first_error (some e) o c v = some e
first_error none (some e) c v = some e
first_error none none (some e) v = some e
first_error none none none v = v

-- The end of an installation by an administrator: one box, which says whether the service is registered, and
-- one key that stays open if it could be created.
abbrev pub Installed : Option String → Bool → State → State → Type 0
Installed error created s t =
    (t.elevations ≡ s.elevations)
    × (t.boxes ≡ (report error s).boxes)
    × (t.registered ≡ elim error [ none ↦ true | some e ↦ s.registered ])
    × (t.open_keys ≡ (if created then suc s.open_keys else s.open_keys))

abbrev pub is_created : Option String → Option String → Option String → Bool
is_created none none none = true
is_created none none (some e) = false
is_created none (some e) c = false
is_created (some e) o c = false

run-Installed :
    (sid : Option String) (m : String ⊎ Bool) (el p o c v : Option String) (s : State)
    → let w : Windows = record {
      sid_error = sid;
      is_member = m;
      elevate_error = el;
      privilege_error = p;
      open_error = o;
      create_error = c;
      set_error = v;
    } in
      let (e, t) = run_with_privilege w p s in
      Installed (first_error p o c v) (is_created p o c) s (report e t)
unfolding run_with_privilege open_key create_key set_value report
run-Installed sid m el (some e) o c v s = ground arith
run-Installed sid m el none (some e) c v s = ground arith
run-Installed sid m el none none (some e) v s = ground arith
run-Installed sid m el none none none (some e) s = ground arith
run-Installed sid m el none none none none s = ground arith

-- What a call does, by whether the process is an administrator.
abbrev pub Told : Bool → Windows → State → State → Type 0
Told true w s t =
    Installed (first_error w.privilege_error w.open_error w.create_error w.set_error)
      (is_created w.privilege_error w.open_error w.create_error) s t
Told false w s t =
    (t.elevations ≡ suc s.elevations)
    × (t.boxes ≡ elim w.elevate_error [ none ↦ s.boxes | some e ↦ (report (some e) s).boxes ])
    × (t.registered ≡ s.registered)
    × (t.open_keys ≡ s.open_keys)

elevated-Told :
    (w : Windows) (e : Option String) (s : State)
    → w.elevate_error ≡ e
    → Told false w s (elevated e s)
unfolding elevated report
elevated-Told w none s q = (refl, rw q refl, refl, refl)
elevated-Told w (some e) s q = (refl, rw q refl, refl, refl)

install-Told :
    (admin : Bool) (w : Windows) (s : State)
    → Told admin w s (
        if not admin
        then elevated w.elevate_error s
        else (let (e, s') = run_with_privilege w w.privilege_error s in report e s'))
install-Told true w s =
    run-Installed w.sid_error w.is_member w.elevate_error w.privilege_error w.open_error
      w.create_error w.set_error s
install-Told false w s = elevated-Told w w.elevate_error s refl

-- Whatever Windows answers: an administrator sees one box, which tells of the first step that failed or of
-- success, and the service is registered exactly in the second case; a key of the registry stays open if it
-- could be created. Anybody else starts the program as an administrator and sees a box only if that fails,
-- and nothing is registered.
pub install_service-Told : (w : Windows) (s : State) → Told (is_admin w) w s (install_service w s)
unfolding install_service
install_service-Told w s = install-Told (is_admin w) w s
