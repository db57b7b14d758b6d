-- ===== src/App/Wsl/Admission.antt =====
-- Which connections of the WSL socket reach the agent.
use keybridge.Base.{
  ℕ, ◌≡◌, refl, ap, ◌∙◌, List, [], ◌∷◌, ◌++◌, Bool, true, false, append_assoc, append-nil, sym,
  if◌then◌else◌,
}
use keybridge.Base.Outcome.{Result, ok, err, panic}
use keybridge.App.Wsl.{Accepted, timed_out, failed, connected, Served, admit, accept_loop}

-- The peer's user was found to be another one, and the socket is the loopback one.
abbrev pub is_refused : Bool → Result Bool → Bool
is_refused fallback (ok true) = false
is_refused fallback (ok false) = fallback
is_refused fallback (err e) = false
is_refused fallback panic = false

-- The connections of the rounds before the listener fails, those refused and those not.
abbrev pub conns : Bool → Bool → List Accepted → List ℕ
conns fallback wanted [] = []
conns fallback wanted (timed_out ∷ rounds) = conns fallback wanted rounds
conns fallback wanted (failed e ∷ rounds) = []
conns fallback wanted (connected conn check ∷ rounds) =
    (if is_refused fallback check
      then if wanted then conn ∷ [] else []
      else if wanted
      then []
      else conn ∷ [])
    ++ conns fallback wanted rounds

admit-conns :
    (fallback : Bool) (conn : ℕ) (check : Result Bool) (s : Served)
    → let s' = admit fallback conn check s in
      (s'.handled ≡ s.handled ++ (if is_refused fallback check then [] else conn ∷ []))
      × (s'.closed ≡ s.closed ++ (if is_refused fallback check then conn ∷ [] else []))
unfolding admit
admit-conns true conn (ok true) s = (refl, sym (append-nil s.closed))
admit-conns true conn (ok false) s = (sym (append-nil s.handled), refl)
admit-conns true conn (err e) s = (refl, sym (append-nil s.closed))
admit-conns true conn panic s = (refl, sym (append-nil s.closed))
admit-conns false conn (ok true) s = (refl, sym (append-nil s.closed))
admit-conns false conn (ok false) s = (refl, sym (append-nil s.closed))
admit-conns false conn (err e) s = (refl, sym (append-nil s.closed))
admit-conns false conn panic s = (refl, sym (append-nil s.closed))

-- Over any sequence of rounds, a connection is closed exactly if the socket is the loopback one and the
-- check found another user, and is handled otherwise, also when the check fails; each in the order in
-- which they came, up to the round in which the listener fails.
pub accept_loop-conns :
    (fallback : Bool) (rounds : List Accepted) (s : Served)
    → let s' = (accept_loop fallback rounds s).1 in
      (s'.handled ≡ s.handled ++ conns fallback false rounds)
      × (s'.closed ≡ s.closed ++ conns fallback true rounds)
unfolding accept_loop
accept_loop-conns fallback [] s = (sym (append-nil s.handled), sym (append-nil s.closed))
accept_loop-conns fallback (timed_out ∷ rounds) s = accept_loop-conns fallback rounds s
accept_loop-conns fallback (failed e ∷ rounds) s =
    (sym (append-nil s.handled), sym (append-nil s.closed))
accept_loop-conns fallback (connected conn check ∷ rounds) s =
    let (h, c) = accept_loop-conns fallback rounds (admit fallback conn check s) in
    let (h₁, c₁) = admit-conns fallback conn check s in
    (
      h
          ∙ ap (λ xs. xs ++ conns fallback false rounds) h₁
          ∙ append_assoc s.handled _ (conns fallback false rounds),
      c
          ∙ ap (λ xs. xs ++ conns fallback true rounds) c₁
          ∙ append_assoc s.closed _ (conns fallback true rounds),
    )
