-- ===== src/App/Wsl/Paths.antt =====
-- The path that a Linux client is shown.
use keybridge.Base.{ℕ, ◌+◌, ◌≡◌, ◌≢◌, ◌≤◌, refl, List, [], ◌∷◌, true, All, arith, leb, ◌&&◌}
use keybridge.App.Wsl.{to_slash, win_path_to_unix}

to_slash-All : (bs : List ℕ) → All (λ b. b ≢ 92) (to_slash bs)
unfolding to_slash
to_slash-All [] = tt
to_slash-All (b ∷ bs) = (ground arith, to_slash-All bs)

-- A path on a drive, given by its capital letter and a colon as its volume name, is shown below
-- "/mnt/" and the letter in lower case, and no backslash is left in it.
pub win_path_to_unix_drive :
    (volume_name_length : List ℕ → ℕ) (letter : ℕ) (rest : List ℕ)
    → volume_name_length (letter ∷ 58 ∷ rest) ≡ 2
    → 65 ≤ letter
    → letter ≤ 90
    → let shown = win_path_to_unix volume_name_length (letter ∷ 58 ∷ rest) in
      (shown ≡ 47 ∷ 109 ∷ 110 ∷ 116 ∷ 47 ∷ (letter + 32) ∷ to_slash rest) × All (λ b. b ≢ 92) shown
unfolding win_path_to_unix
win_path_to_unix_drive volume_name_length letter rest v low high =
    let upper : (leb 65 letter && leb letter 90) ≡ true = ground arith in
    rw (v, upper)
      (
        refl,
        (
          ground arith,
          (
            ground arith,
            (ground arith, (ground arith, (ground arith, (ground arith, to_slash-All rest)))),
          ),
        ),
      )
