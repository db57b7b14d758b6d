-- ===== src/SshAgent/Wrapped/Listing.antt =====
-- What the wrapped agents list.
use keybridge.Base.{◌≡◌, refl, ap, ◌∙◌, subst, List, [], ◌∷◌, ◌++◌, append-nil, append_assoc}
use keybridge.Base.Outcome.{Error, Result, ok, err, panic}
use keybridge.SshAgent.Agent.{Agent, Key}
use keybridge.SshAgent.Wrapped.{WrappedAgent, list_from, list}

-- The keys of all agents, each asked in the state that the one before it left.
pub data Listed {S : Type 0} : List (Agent S) → List Key → S → S → Type 0 where
  none_left : {s : S} → Listed [] [] s s
  and_then :
      {a : Agent S} {rest : List (Agent S)} {keys more : List Key} {s t u : S}
      → a.list s ≡ (ok keys, t)
      → Listed rest more t u
      → Listed (a ∷ rest) (keys ++ more) s u

module _ {S : Type 0} where
  list_from-Listed :
      {asked : List (Agent S)} {keys : List Key} {s t : S}
      → Listed asked keys s t
      → (rest : List (Agent S)) (acc : List Key)
      → list_from (asked ++ rest) acc s ≡ list_from rest (acc ++ keys) t
  unfolding list_from
  list_from-Listed none_left rest acc = rw append-nil
  list_from-Listed (and_then {keys = keys} {more = more} l later) rest acc =
      rw l (list_from-Listed later rest (acc ++ keys) ∙ rw append_assoc)

  -- If all agents list their keys, the wrapped agent lists them all, in the order of the agents.
  pub list-Listed :
      (w : WrappedAgent S) (keys : List Key) (s t : S)
      → Listed w.agents keys s t
      → list w s ≡ (ok keys, t)
  unfolding list list_from
  list-Listed w keys s t listed =
      subst (λ (l : List (Agent S)). list_from l [] s ≡ (ok keys, t)) (append-nil w.agents)
        (list_from-Listed listed [] [])

  -- If an agent fails to list its keys, its error is the result: no keys are listed, neither those of the
  -- agents before it nor those of the agents behind it, which are not asked.
  pub list-error :
      (asked rest : List (Agent S)) (a : Agent S) (keys : List Key) (e : Error) (s t u : S)
      → Listed asked keys s t
      → a.list t ≡ (err e, u)
      → list (record { agents = asked ++ a ∷ rest }) s ≡ (err e, u)
  unfolding list list_from
  list-error asked rest a keys e s t u listed fails =
      list_from-Listed listed (a ∷ rest) [] ∙ rw fails

-- How a listing ends, when these keys have been collected before: with the keys of all agents; or by the
-- error or the panic of an agent, in the state in which it left, with no key listed.
pub data Collected {S : Type 0} (agents : List (Agent S)) (s : S) (acc : List Key)
    (r : Result (List Key) × S) : Type 0 where
  complete :
      (keys : List Key) (t : S)
      → Listed agents keys s t
      → r ≡ (ok (acc ++ keys), t)
      → Collected agents s acc r
  failed :
      (asked rest : List (Agent S)) (a : Agent S) (keys : List Key) (e : Error) (t u : S)
      → agents ≡ asked ++ a ∷ rest
      → Listed asked keys s t
      → a.list t ≡ (err e, u)
      → r ≡ (err e, u)
      → Collected agents s acc r
  crashed :
      (asked rest : List (Agent S)) (a : Agent S) (keys : List Key) (t u : S)
      → agents ≡ asked ++ a ∷ rest
      → Listed asked keys s t
      → a.list t ≡ (panic, u)
      → r ≡ (panic, u)
      → Collected agents s acc r

module _ {S : Type 0} where
  and_then-Collected :
      (a : Agent S) (rest : List (Agent S)) (keys acc : List Key) (s t : S)
      (r : Result (List Key) × S)
      → a.list s ≡ (ok keys, t)
      → Collected rest t (acc ++ keys) r
      → Collected (a ∷ rest) s acc r
  and_then-Collected a rest keys acc s t r l (complete more u listed e) =
      complete (keys ++ more) u (and_then l listed)
        (e ∙ ap (λ ks. (ok ks, u)) (append_assoc acc keys more))
  and_then-Collected a rest keys acc s t r l
        (failed asked rest' a' more x u v split listed at_a e) =
      failed (a ∷ asked) rest' a' (keys ++ more) x u v (ap (◌∷◌ a) split) (and_then l listed) at_a e
  and_then-Collected a rest keys acc s t r l (crashed asked rest' a' more u v split listed at_a e) =
      crashed (a ∷ asked) rest' a' (keys ++ more) u v (ap (◌∷◌ a) split) (and_then l listed) at_a e

  list_from-Collected :
      (agents : List (Agent S)) (acc : List Key) (s : S)
      → Collected agents s acc (list_from agents acc s)
  unfolding list_from
  list_from-Collected [] acc s = complete [] s none_left (rw append-nil)
  list_from-Collected (a ∷ rest) acc s =
      from (a.list s).0 refl (λ keys. list_from-Collected rest (acc ++ keys) (a.list s).1)
    where
      from :
          (r : Result (List Key))
          → (a.list s).0 ≡ r
          → ((keys : List Key)
              → Collected rest
                  (a.list s).1
                  (acc ++ keys)
                  (list_from rest (acc ++ keys) (a.list s).1))
          → Collected (a ∷ rest) s acc (list_from (a ∷ rest) acc s)
      from (ok keys) r later =
          and_then-Collected a rest keys acc s (a.list s).1 _ (λ i. (r i, (a.list s).1))
            (rw r (later keys))
      from (err e) r later =
          failed [] rest a [] e s (a.list s).1 refl none_left (λ i. (r i, (a.list s).1)) (rw r refl)
      from panic r later =
          crashed [] rest a [] s (a.list s).1 refl none_left (λ i. (r i, (a.list s).1)) (rw r refl)

  -- Every listing of a wrapped agent: either all agents list their keys, each in the state that the one
  -- before it left, and the result is all of these keys in the order of the agents; or the first agent
  -- that fails or panics decides: its error or panic is the result, no keys are listed, neither its own nor
  -- those of the agents before it, and the agents behind it are not asked.
  pub list-Collected : (w : WrappedAgent S) (s : S) → Collected w.agents s [] (list w s)
  unfolding list
  list-Collected w s = list_from-Collected w.agents [] s
