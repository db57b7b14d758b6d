-- ===== src/App/Wsl/Tests.antt =====
-- Runs and instances of the theorems about app/wsl.go.
use keybridge.Base.{ℕ, ◌≡◌, refl, List, [], ◌∷◌, true, false}
use keybridge.Base.Outcome.{eof, ok, err}
use keybridge.App.Wsl.{
  Accepted, timed_out, failed, connected, Served, accept_loop, win_path_to_unix,
}
use keybridge.App.Wsl.Admission.{accept_loop-conns}

abbrev rounds : List Accepted
rounds =
    connected 1 (ok true)
    ∷ timed_out
    ∷ connected 2 (ok false)
    ∷ connected 3 (err eof)
    ∷ failed eof
    ∷ connected 4 (ok true)
    ∷ []

abbrev nothing : Served
nothing = record { handled = []; closed = [] }

loop_run :
    accept_loop true rounds nothing ≡ (err eof, record { handled = 1 ∷ 3 ∷ []; closed = 2 ∷ [] })
unfolding accept_loop
loop_run = refl

conns_admitted :
    let s' = (accept_loop true rounds nothing).1 in (s'.handled ≡ 1 ∷ 3 ∷ []) × (s'.closed ≡ 2 ∷ [])
conns_admitted = accept_loop-conns true rounds nothing

abbrev drive_length : List ℕ → ℕ
drive_length path = 2

-- C:\a
path_run :
    win_path_to_unix drive_length (67 ∷ 58 ∷ 92 ∷ 97 ∷ [])
    ≡ 47 ∷ 109 ∷ 110 ∷ 116 ∷ 47 ∷ 99 ∷ 47 ∷ 97 ∷ []
unfolding win_path_to_unix
path_run = refl
