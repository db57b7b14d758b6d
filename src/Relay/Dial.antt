-- ===== src/Relay/Dial.antt =====
-- When dialling ends.
use keybridge.Base.{
  ◌≡◌, ◌↔◌, refl, ap, sym, subst, ◌∙◌, List, [], ◌∷◌, ◌++◌, Bool, true, false, none, some,
  if◌then◌else◌, All, arith, Bool-cases, inl, inr,
}
use keybridge.Relay.{not_exist, busy, refused, Dialled, connected, failed, dial_pipe_with_poll}

-- An attempt after which the loop sleeps and tries again.
abbrev pub is_retried : Bool → Dialled → Bool
is_retried poll (connected conn) = false
is_retried poll (failed not_exist) = poll
is_retried poll (failed busy) = poll
is_retried poll (failed (refused e)) = false

-- The first attempt that is not retried.
abbrev pub Settles : Bool → List Dialled → Dialled → Type 0
Settles poll attempts d =
    (before : List Dialled) × (behind : List Dialled) × (attempts ≡ before ++ d ∷ behind)
    × All (λ a. is_retried poll a ≡ true) before
    × (is_retried poll d ≡ false)

dial-cons :
    (poll : Bool) (a : Dialled) (attempts : List Dialled)
    → dial_pipe_with_poll poll (a ∷ attempts)
      ≡ (if is_retried poll a then dial_pipe_with_poll poll attempts else some a)
unfolding dial_pipe_with_poll
dial-cons poll (connected conn) attempts = refl
dial-cons true (failed not_exist) attempts = refl
dial-cons true (failed busy) attempts = refl
dial-cons true (failed (refused e)) attempts = refl
dial-cons false (failed not_exist) attempts = refl
dial-cons false (failed busy) attempts = refl
dial-cons false (failed (refused e)) attempts = refl

settles :
    (poll : Bool) (attempts : List Dialled) (d : Dialled)
    → dial_pipe_with_poll poll attempts ≡ some d
    → Settles poll attempts d
settles poll [] d h = absurd (unfold dial_pipe_with_poll in cc)
settles poll (a ∷ attempts) d h = elim (Bool-cases (is_retried poll a)) [
  | inl q ↦
      let h' : dial_pipe_with_poll poll attempts ≡ some d =
        ground (arith, dial-cons poll a attempts) in
      let (before, behind, e, retried, final) = settles poll attempts d h' in
      (a ∷ before, behind, ap (λ xs. a ∷ xs) e, (q, retried), final)
  | inr q ↦
      let same : d ≡ a = ground (arith, dial-cons poll a attempts) in
      (
        [],
        attempts,
        ap (λ x. x ∷ attempts) (sym same),
        tt,
        subst (λ x. is_retried poll x ≡ false) (sym same) q,
      )
]

settled :
    (poll : Bool) (before behind : List Dialled) (d : Dialled)
    → All (λ a. is_retried poll a ≡ true) before
    → is_retried poll d ≡ false
    → dial_pipe_with_poll poll (before ++ d ∷ behind) ≡ some d
settled poll [] behind d retried final = dial-cons poll d behind ∙ rw final
settled poll (a ∷ before) behind d (q, retried) final =
    dial-cons poll a (before ++ d ∷ behind) ∙ rw q (settled poll before behind d retried final)

-- Dialling ends with the first attempt that is not retried, whatever comes behind it, and with no other:
-- an attempt is retried exactly if -p was given and the pipe is not there or was busy all the time.
pub dial_pipe_with_poll_iff :
    (poll : Bool) (attempts : List Dialled) (d : Dialled)
    → (dial_pipe_with_poll poll attempts ≡ some d) ↔ Settles poll attempts d
dial_pipe_with_poll_iff poll attempts d = (
  settles poll attempts d,
  λ (before, behind, e, retried, final).
      ap (dial_pipe_with_poll poll) e ∙ settled poll before behind d retried final,
)

-- As long as it dials, all attempts were retried.
pub dialling-retried :
    (poll : Bool) (attempts : List Dialled)
    → dial_pipe_with_poll poll attempts ≡ none
    → All (λ a. is_retried poll a ≡ true) attempts
dialling-retried poll [] h = tt
dialling-retried poll (a ∷ attempts) h = elim (Bool-cases (is_retried poll a)) [
  | inl q ↦
      let h' : dial_pipe_with_poll poll attempts ≡ none =
        ground (arith, dial-cons poll a attempts) in
      (q, dialling-retried poll attempts h')
  | inr q ↦ absurd (ground (arith, dial-cons poll a attempts))
]
