-- ===== src/App/Wsl.antt =====
-- app/wsl.go: the path that a Linux client is shown, and the accept loop. The length of a path's volume
-- name (`filepath.VolumeName`) and the answers of the listener and of the check of the peer's user are
-- parameters.
pub mod Admission
pub mod Paths
pub mod Setup
mod Tests
use keybridge.Base.{
  ℕ, ◌+◌, List, [], ◌∷◌, ◌++◌, Bool, false, not, ◌&&◌, leb, ◌==◌, if◌then◌else◌, take, drop,
}
use keybridge.Base.Outcome.{Error, Result, ok, err, panic}

-- `filepath.ToSlash` on Windows: each backslash (92) becomes a slash (47).
pub to_slash : List ℕ → List ℕ
to_slash [] = []
to_slash (b ∷ bs) = let rest = to_slash bs in (if b == 92 then 47 else b) ∷ rest

-- `strings.ToLower` on ASCII letters
pub to_lower : List ℕ → List ℕ
to_lower [] = []
to_lower (b ∷ bs) = let rest = to_lower bs in (if leb 65 b && leb b 90 then b + 32 else b) ∷ rest

-- `winPath2Unix`; the first text is "/mnt/".
pub win_path_to_unix : (List ℕ → ℕ) → List ℕ → List ℕ
unfolding to_slash to_lower
win_path_to_unix volume_name_length path =
    let vnl = volume_name_length path in
    if vnl == 2
    then (47 ∷ 109 ∷ 110 ∷ 116 ∷ 47 ∷ []) ++ (to_lower (take 1 path) ++ to_slash (drop vnl path))
    else to_slash path

-- What `Accept` returns in a round: a timeout, another error, or a connection, here with what the check of
-- its user says if it is asked.
pub data Accepted : Type 0 where
  timed_out : Accepted
  failed : Error → Accepted
  connected : ℕ → Result Bool → Accepted

-- The connections that went to the handler, and those that were closed, oldest first.
pub record Served : Type 0 where
  pub handled : List ℕ
  pub closed : List ℕ

-- `if same, err := …; err == nil && !same`
pub is_stranger : Result Bool → Bool
is_stranger (ok same) = not same
is_stranger (err e) = false
is_stranger panic = false

pub admit : Bool → ℕ → Result Bool → Served → Served
unfolding is_stranger
admit fallback conn check s =
    if fallback && is_stranger check
    then record s { closed = s.closed ++ conn ∷ [] }
    else record s { handled = s.handled ++ conn ∷ [] }

-- The loop of `(*WSL).Run`, by what each round's `Accept` returns until the context is cancelled at its
-- end; a panic of the check is not followed.
pub accept_loop : Bool → List Accepted → Served → Result (Unit {0}) × Served
unfolding admit
accept_loop fallback [] s = (ok tt, s)
accept_loop fallback (timed_out ∷ rounds) s = accept_loop fallback rounds s
accept_loop fallback (failed e ∷ rounds) s = (err e, s)
accept_loop fallback (connected conn check ∷ rounds) s =
    accept_loop fallback rounds (admit fallback conn check s)
