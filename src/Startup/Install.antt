-- ===== src/Startup/Install.antt =====
-- installService of main.go, with IsAdmin of utils/uac.go: how the Hyper-V service is registered. The
-- registry, elevation and the answers of Windows are parameters.
pub mod Boxes
mod Tests
use keybridge.Base.{
  ℕ, suc, ◌-◌, String, List, [], ◌∷◌, ◌++◌, Bool, true, false, not, Option, none, some, ◌⊎◌, inl,
  inr, if◌then◌else◌,
}
use keybridge.Utils.MessageBox.{Box, mb_icon_error, mb_icon_information}

-- Errors come in their printed form: of AllocateAndInitializeSid and IsMember, of the start as an
-- administrator, of the privilege, and of OpenKey, CreateKey and SetStringValue.
pub record Windows : Type 0 where
  pub sid_error : Option String
  pub is_member : String ⊎ Bool
  pub elevate_error : Option String
  pub privilege_error : Option String
  pub open_error : Option String
  pub create_error : Option String
  pub set_error : Option String

-- The boxes that the user has seen, oldest first, the starts as an administrator, the registry keys that are
-- open, and whether the service has its name in the registry.
pub record State : Type 0 where
  pub boxes : List Box
  pub elevations : ℕ
  pub open_keys : ℕ
  pub registered : Bool

-- `IsAdmin`
pub is_admin : Windows → Bool
is_admin w = elim w.sid_error [
  | some e ↦ false
  | none ↦ elim w.is_member [ inl e ↦ false | inr member ↦ member ]
]

abbrev pub show : String → String → ℕ → State → State
show title text style s = record s {
  boxes = s.boxes ++ record { title = title; text = text; style = style } ∷ [];
}

-- The box for an error, and the box for none.
pub report : Option String → State → State
report (some e) s = show "Install Service Error:" e mb_icon_error s
report none s =
    show "Install Service Success:" "Please reboot your computer to take effect!"
      mb_icon_information s

set_value : Option String → State → Option String × State
set_value (some e) s = (some e, s)
set_value none s = (none, record s { registered = true })

-- `registry.CreateKey` and what follows; the key is not closed.
create_key : Windows → Option String → State → Option String × State
unfolding set_value
create_key w (some e) s = (some e, s)
create_key w none s = set_value w.set_error (record s { open_keys = suc s.open_keys })

-- `registry.OpenKey` with its deferred `gcs.Close()`
open_key : Windows → Option String → State → Option String × State
unfolding create_key
open_key w (some e) s = (some e, s)
open_key w none s =
    let (e, s') = create_key w w.create_error (record s { open_keys = suc s.open_keys }) in
    (e, record s' { open_keys = s'.open_keys - 1 })

-- `winio.RunWithPrivilege` of the function, which it does not call when it cannot take the privilege.
run_with_privilege : Windows → Option String → State → Option String × State
unfolding open_key
run_with_privilege w (some e) s = (some e, s)
run_with_privilege w none s = open_key w w.open_error s

elevated : Option String → State → State
elevated none s = record s { elevations = suc s.elevations }
elevated (some e) s =
    show "Install Service Error:" e mb_icon_error (record s { elevations = suc s.elevations })

-- `installService`
pub install_service : Windows → State → State
unfolding is_admin report run_with_privilege elevated
install_service w s =
    if not (is_admin w)
    then elevated w.elevate_error s
    else (let (e, s') = run_with_privilege w w.privilege_error s in report e s')
