-- ===== src/Utils/Machines/Checks.antt =====
-- The two checks of utils/wsl2.go: whether the service is registered, and whether there are Hyper-V sockets.
use keybridge.Base.{
  ℕ, suc, ◌-◌, ◌≡◌, ◌↔◌, refl, List, [], ◌∷◌, ◌++◌, Bool, true, false, Option, none, some, arith,
}
use keybridge.Base.Outcome.{Error}

-- The registry keys and sockets that are open, and what was printed.
pub record Handles : Type 0 where
  pub keys : ℕ
  pub sockets : ℕ
  pub printed : List Error

-- The key of the service, opened and closed under the key of the services.
open_service : Option Error → Handles → Bool × Handles
open_service (some e) s = (false, s)
open_service none s =
    let opened = record s { keys = suc s.keys } in (true, record opened { keys = opened.keys - 1 })

-- `CheckHVService` with its deferred `gcs.Close()`, by the errors of the two calls of OpenKey
pub check_hv_service : Option Error → Option Error → Handles → Bool × Handles
unfolding open_service
check_hv_service (some e) service_error s = (false, s)
check_hv_service none service_error s =
    let (found, s') = open_service service_error (record s { keys = suc s.keys }) in
    (found, record s' { keys = s'.keys - 1 })

-- `CheckHvSocket`, by the error of Socket
pub check_hv_socket : Option Error → Handles → Bool × Handles
check_hv_socket (some e) s = (false, record s { printed = s.printed ++ e ∷ [] })
check_hv_socket none s =
    let opened = record s { sockets = suc s.sockets } in
    (true, record opened { sockets = opened.sockets - 1 })

-- The service is found exactly if both keys can be opened, and no key stays open.
pub check_hv_service-keys :
    (services_error service_error : Option Error) (s : Handles)
    → let (found, t) = check_hv_service services_error service_error s in
      ((found ≡ true) ↔ ((services_error ≡ none) × (service_error ≡ none))) × (t ≡ s)
unfolding check_hv_service
check_hv_service-keys (some e) service_error s =
    ((λ h. absurd (ground arith), λ h. absurd (ground arith)), refl)
check_hv_service-keys none (some e) s =
    ((λ h. absurd (ground arith), λ h. absurd (ground arith)), ground arith)
check_hv_service-keys none none s = ((λ h. (refl, refl), λ h. refl), ground arith)

-- There are sockets exactly if one can be made, and it is closed again; an error is printed.
pub check_hv_socket-sockets :
    (e : Option Error) (s : Handles)
    → let (found, t) = check_hv_socket e s in
      ((found ≡ true) ↔ (e ≡ none)) × (t.sockets ≡ s.sockets) × (t.keys ≡ s.keys)
unfolding check_hv_socket
check_hv_socket-sockets (some e) s =
    ((λ h. absurd (ground arith), λ h. absurd (ground arith)), refl, refl)
check_hv_socket-sockets none s = ((λ h. refl, λ h. refl), ground arith, refl)
