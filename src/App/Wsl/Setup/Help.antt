-- ===== src/App/Wsl/Setup/Help.antt =====
-- What the WSL application tells its user.
use keybridge.Base.{
  ℕ, zero, suc, ◌≡◌, ◌≢◌, refl, ap, List, [], ◌∷◌, ◌++◌, true, false, ◌⊎◌, inl, inr, All, arith,
  take, drop, ◌==◌, Bool-cases,
}
use keybridge.Base.Outcome.{Error, Result, ok, err}
use keybridge.App.Wsl.{to_slash, to_lower, win_path_to_unix}
use keybridge.App.Wsl.Setup.{
  System, Setup, listen_unix_sock, export_text, socat_text, export_fallback, wsl_sock, fall_back,
  set_up, start,
}

-- No byte of a text is a percent sign.
abbrev pub IsPlain : List ℕ → Type 0
IsPlain text = All (λ b. b ≢ 37) text

IsPlain-append : (xs ys : List ℕ) → IsPlain xs → IsPlain ys → IsPlain (xs ++ ys)
IsPlain-append [] ys px py = py
IsPlain-append (x ∷ xs) ys px py = (px.0, IsPlain-append xs ys px.1 py)

IsPlain-take : (n : ℕ) (xs : List ℕ) → IsPlain xs → IsPlain (take n xs)
IsPlain-take zero xs p = tt
IsPlain-take (suc n) [] p = tt
IsPlain-take (suc n) (x ∷ xs) p = (p.0, IsPlain-take n xs p.1)

IsPlain-drop : (n : ℕ) (xs : List ℕ) → IsPlain xs → IsPlain (drop n xs)
IsPlain-drop zero xs p = p
IsPlain-drop (suc n) [] p = tt
IsPlain-drop (suc n) (x ∷ xs) p = IsPlain-drop n xs p.1

to_slash-IsPlain : (xs : List ℕ) → IsPlain xs → IsPlain (to_slash xs)
unfolding to_slash
to_slash-IsPlain [] p = tt
to_slash-IsPlain (x ∷ xs) p = (λ h. ground (arith, p.0, h), to_slash-IsPlain xs p.1)

to_lower-IsPlain : (xs : List ℕ) → IsPlain xs → IsPlain (to_lower xs)
unfolding to_lower
to_lower-IsPlain [] p = tt
to_lower-IsPlain (x ∷ xs) p = (λ h. ground (arith, p.0, h), to_lower-IsPlain xs p.1)

win_path_to_unix-IsPlain :
    (volume_name_length : List ℕ → ℕ) (path : List ℕ)
    → IsPlain path
    → IsPlain (win_path_to_unix volume_name_length path)
unfolding win_path_to_unix
win_path_to_unix-IsPlain v path p = elim (Bool-cases (v path == 2)) [
  | inl q ↦ rw q (
      mnt _ (
        IsPlain-append (to_lower (take 1 path)) (to_slash (drop (v path) path))
          (to_lower-IsPlain (take 1 path) (IsPlain-take 1 path p))
          (to_slash-IsPlain (drop (v path) path) (IsPlain-drop (v path) path p))))
  | inr q ↦ rw q (to_slash-IsPlain path p)
]
  where
    mnt : (xs : List ℕ) → IsPlain xs → IsPlain (47 ∷ 109 ∷ 110 ∷ 116 ∷ 47 ∷ xs)
    mnt xs px = IsPlain-append (47 ∷ 109 ∷ 110 ∷ 116 ∷ 47 ∷ []) xs (ground arith) px

-- The listener by what the two attempts return, and the help of each.
abbrev pub chosen : System → Error ⊎ List ℕ → Result Setup
chosen sys (inr path) = ok (record {
  fallback = false;
  help = export_text ++ win_path_to_unix sys.volume_name_length path;
})
chosen sys (inl e) = elim sys.listen_tcp [
  | inl e' ↦ err e'
  | inr port ↦
      ok (record { fallback = true; help = socat_text ++ (sys.decimal port ++ export_fallback) })
]

set_up-chosen :
    (sys : System) (r : Error ⊎ List ℕ)
    → ((format : List ℕ) → IsPlain format → sys.sprintf format ≡ format)
    → ((path : List ℕ) → r ≡ inr path → IsPlain path)
    → set_up sys r ≡ chosen sys r
unfolding set_up fall_back
set_up-chosen sys (inr path) plain no_percent =
    ap (λ h. ok (record { fallback = false; help = h }))
      (plain _ (
        IsPlain-append export_text (win_path_to_unix sys.volume_name_length path) (ground arith)
          (win_path_to_unix-IsPlain sys.volume_name_length path (no_percent path refl))))
set_up-chosen sys (inl e) plain no_percent = ground arith

-- The application listens on the Unix socket if it can, and shows its path in the way of Linux behind
-- "export SSH_AUTH_SOCK="; otherwise on a loopback port, which its help names; and it fails, by the second
-- error, if neither is possible. The path is read as a format: this is under the condition that it has no
-- percent sign, and that Sprintf gives a format without one back.
pub start-chosen :
    (sys : System)
    → ((format : List ℕ) → IsPlain format → sys.sprintf format ≡ format)
    → ((path : List ℕ) → listen_unix_sock sys wsl_sock ≡ inr path → IsPlain path)
    → start sys ≡ chosen sys (listen_unix_sock sys wsl_sock)
unfolding start
start-chosen sys plain no_percent =
    set_up-chosen sys (listen_unix_sock sys wsl_sock) plain no_percent
