-- ===== src/SshAgent/Wrapped/Order.antt =====
-- In which order the wrapped agents are asked, and whose answer counts.
use keybridge.Base.{
  ℕ, ◌≡◌, ◌≢◌, refl, ap, ◌∙◌, subst, List, [], ◌∷◌, ◌++◌, Option, none, some, append-nil,
}
use keybridge.Base.Outcome.{Error, Result, ok, err, panic}
use keybridge.SshAgent.Agent.{Agent, Signature}
use keybridge.SshAgent.Wrapped.{
  WrappedAgent, sign_by, sign_from, sign_with_flags, or_first, or_next, give_up,
}

abbrev first_of_errors : Option Error → List Error → Option Error
first_of_errors first [] = first
first_of_errors first (e ∷ es) = first_of_errors (or_first first e) es

first_of_errors-some : (e : Error) (es : List Error) → first_of_errors (some e) es ≡ some e
first_of_errors-some e [] = refl
first_of_errors-some e (e' ∷ es) = first_of_errors-some e es

-- The result when every agent has refused: the first of their errors, and a nil signature with no
-- error if there was no agent.
abbrev pub failure : List Error → Result (Option Signature)
failure [] = ok none
failure (e ∷ es) = err e

module _ {S : Type 0} (key bytes : List ℕ) (flags : ℕ) where
  -- The agents refuse to sign one after the other, with these errors.
  pub data Refused : List (Agent S) → List Error → S → S → Type 0 where
    done : {s : S} → Refused [] [] s s
    next :
        {a : Agent S} {rest : List (Agent S)} {e : Error} {es : List Error} {s t u : S}
        → sign_by a key bytes flags s ≡ (err e, t)
        → Refused rest es t u
        → Refused (a ∷ rest) (e ∷ es) s u

  sign_from-Refused :
      {asked : List (Agent S)} {es : List Error} {s t : S}
      → Refused asked es s t
      → (rest : List (Agent S)) (first : Option Error)
      → sign_from (asked ++ rest) key bytes flags first s
        ≡ sign_from rest key bytes flags (first_of_errors first es) t
  unfolding sign_from
  sign_from-Refused done rest first = refl
  sign_from-Refused (next r more) rest first = rw r (sign_from-Refused more rest _)

  -- How a request to sign ends: at the first agent that signs, which gives the result, so that none
  -- behind it is asked; at one that panics; or when all have refused.
  pub data Answer (agents : List (Agent S)) (s : S) (r : Result (Option Signature) × S)
      : Type 0 where
    signed :
        (asked rest : List (Agent S)) (a : Agent S) (es : List Error) (t u : S)
        (signature : Option Signature)
        → agents ≡ asked ++ a ∷ rest
        → Refused asked es s t
        → sign_by a key bytes flags t ≡ (ok signature, u)
        → r ≡ (ok signature, u)
        → Answer agents s r
    crashed :
        (asked rest : List (Agent S)) (a : Agent S) (es : List Error) (t u : S)
        → agents ≡ asked ++ a ∷ rest
        → Refused asked es s t
        → sign_by a key bytes flags t ≡ (panic, u)
        → r ≡ (panic, u)
        → Answer agents s r
    refused :
        (es : List Error) (t : S) → Refused agents es s t → r ≡ (failure es, t) → Answer agents s r

  -- The walk over the agents, up to the one that does not refuse.
  data Walk (agents : List (Agent S)) (s : S) : Type 0 where
    stops :
        (asked rest : List (Agent S)) (a : Agent S) (es : List Error) (t u : S)
        (r : Result (Option Signature))
        → agents ≡ asked ++ a ∷ rest
        → Refused asked es s t
        → sign_by a key bytes flags t ≡ (r, u)
        → ((e : Error) → r ≢ err e)
        → Walk agents s
    ends : (es : List Error) (t : S) → Refused agents es s t → Walk agents s

  walk : (agents : List (Agent S)) (s : S) → Walk agents s
  walk [] s = ends [] s done
  walk (a ∷ rest) s =
      walk_from (sign_by a key bytes flags s).0 refl (walk rest (sign_by a key bytes flags s).1)
    where
      extend :
          (e : Error)
          → (sign_by a key bytes flags s).0 ≡ err e
          → Walk rest (sign_by a key bytes flags s).1
          → Walk (a ∷ rest) s
      extend e r (stops asked rest' a' es t u r' split before at_a' not_err) =
          stops (a ∷ asked) rest' a' (e ∷ es) t u r' (ap (◌∷◌ a) split)
            (next (λ i. (r i, (sign_by a key bytes flags s).1)) before) at_a' not_err
      extend e r (ends es t before) =
          ends (e ∷ es) t (next (λ i. (r i, (sign_by a key bytes flags s).1)) before)

      walk_from :
          (r : Result (Option Signature))
          → (sign_by a key bytes flags s).0 ≡ r
          → Walk rest (sign_by a key bytes flags s).1
          → Walk (a ∷ rest) s
      walk_from (ok signature) r later =
          stops [] rest a [] s _ (ok signature) refl done
            (λ i. (r i, (sign_by a key bytes flags s).1)) (λ e p. cc)
      walk_from panic r later =
          stops [] rest a [] s _ panic refl done (λ i. (r i, (sign_by a key bytes flags s).1))
            (λ e p. cc)
      walk_from (err e) r later = extend e r later

  sign_from-all :
      {agents : List (Agent S)} {es : List Error} {s t : S}
      → Refused agents es s t
      → sign_from agents key bytes flags none s ≡ (failure es, t)
  unfolding sign_from
  sign_from-all {agents} {es} {s} {t} refusals =
      subst (λ (l : List (Agent S)). sign_from l key bytes flags none s ≡ (failure es, t))
        (append-nil agents) (sign_from-Refused refusals [] none ∙ last es)
    where
      last : (es : List Error) → give_up (first_of_errors none es) t ≡ (failure es, t)
      last [] = refl
      last (e ∷ es) = rw (first_of_errors-some e es)

  sign_from-stops :
      (a : Agent S) (rest : List (Agent S)) (first : Option Error) (t u : S)
      (r : Result (Option Signature))
      → sign_by a key bytes flags t ≡ (r, u)
      → ((e : Error) → r ≢ err e)
      → sign_from (a ∷ rest) key bytes flags first t ≡ (r, u)
  unfolding sign_from
  sign_from-stops a rest first t u (ok signature) at_a not_err = rw at_a
  sign_from-stops a rest first t u panic at_a not_err = rw at_a
  sign_from-stops a rest first t u (err e) at_a not_err = absurd (not_err e refl)

  -- For every request to sign, the agents are asked in their order, each in the state that the one
  -- before it left; the first that does not refuse decides, by its signature or its panic, and none
  -- behind it is asked; if all refuse, the first error is returned, and without an agent a nil
  -- signature.
  pub sign_with_flags-Answer :
      (w : WrappedAgent S) (s : S) → Answer w.agents s (sign_with_flags w key bytes flags s)
  unfolding sign_with_flags
  sign_with_flags-Answer w s = from (walk w.agents s)
    where
      from : Walk w.agents s → Answer w.agents s (sign_from w.agents key bytes flags none s)
      from (ends es t refusals) = refused es t refusals (sign_from-all refusals)
      from (stops asked rest a es t u (ok signature) split before at_a not_err) =
          signed asked rest a es t u signature split before at_a (
            ap (λ (l : List (Agent S)). sign_from l key bytes flags none s) split
            ∙ sign_from-Refused before (a ∷ rest) none
            ∙ sign_from-stops a rest _ t u (ok signature) at_a not_err)
      from (stops asked rest a es t u panic split before at_a not_err) =
          crashed asked rest a es t u split before at_a (
            ap (λ (l : List (Agent S)). sign_from l key bytes flags none s) split
            ∙ sign_from-Refused before (a ∷ rest) none
            ∙ sign_from-stops a rest _ t u panic at_a not_err)
      from (stops asked rest a es t u (err e) split before at_a not_err) = absurd (not_err e refl)

-- The result when the first agent has refused by `e`: that of the second, or `e` if it refuses too.
abbrev pub or_refusal : Error → Result (Option Signature) → Result (Option Signature)
or_refusal e (ok signature) = ok signature
or_refusal e (err later) = err e
or_refusal e panic = panic

-- The end of a request that the first of two agents has answered.
abbrev pub by_second :
    {S : Type 0}
    → (S → Result (Option Signature) × S)
    → Result (Option Signature) × S
    → Result (Option Signature) × S
by_second second (ok signature, t) = (ok signature, t)
by_second second (panic, t) = (panic, t)
by_second second (err e, t) = let (r, u) = second t in (or_refusal e r, u)

module _ {S : Type 0} where
  last_asked :
      (e : Error) (asked : Result (Option Signature) × S)
      → or_next (λ e'. give_up (or_first (some e) e')) asked.0 asked.1
        ≡ (or_refusal e asked.0, asked.1)
  last_asked e (ok signature, t) = refl
  last_asked e (err later, t) = refl
  last_asked e (panic, t) = refl

  first_asked :
      (b : Agent S) (key bytes : List ℕ) (flags : ℕ) (asked : Result (Option Signature) × S)
      → or_next (λ e. sign_from (b ∷ []) key bytes flags (or_first none e)) asked.0 asked.1
        ≡ by_second (sign_by b key bytes flags) asked
  unfolding sign_from
  first_asked b key bytes flags (ok signature, t) = refl
  first_asked b key bytes flags (err e, t) = last_asked e (sign_by b key bytes flags t)
  first_asked b key bytes flags (panic, t) = refl

  pub sign_with_flags-two :
      (a b : Agent S) (key bytes : List ℕ) (flags : ℕ) (s : S)
      → sign_with_flags (record { agents = a ∷ b ∷ [] }) key bytes flags s
        ≡ by_second (sign_by b key bytes flags) (sign_by a key bytes flags s)
  unfolding sign_with_flags sign_from
  sign_with_flags-two a b key bytes flags s =
      first_asked b key bytes flags (sign_by a key bytes flags s)
