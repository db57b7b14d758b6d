-- ===== src/SshAgent/CapiAgent/Handles.antt =====
-- The references to certificate contexts that the agent holds: one for each of its keys.
use keybridge.Base.{ℕ, ◌≡◌, refl, subst, List, [], Option, none, some}
use keybridge.Base.Outcome.{Result, ok, err, panic, continue}
use keybridge.Capi.{Windows, Certificate, no_more, load_user_certs}
use keybridge.Capi.Handles.{Holds, with_certs, load_user_certs-Holds}
use keybridge.SshAgent.CapiAgent.{
  Outside, SshKey, CapiAgent, keys_of, close, after_load, load_certs, close_loaded, list_keys, list,
}
use keybridge.SshAgent.CapiAgent.Loading.{held, close_keys-Holds, load_each-Holds}

-- What an agent holds: one reference for each key, besides those of `others`.
abbrev pub AgentHolds : CapiAgent → List ℕ → ℕ → Type 0
AgentHolds s others bad = Holds s.windows (held (keys_of s.keys)) others bad

after_load-Holds :
    (o : Outside) (r : Result (List Certificate)) (w : Windows) (s : CapiAgent) (others : List ℕ)
    (bad : ℕ)
    → s.keys ≡ none
    → Holds w (with_certs r) others bad
    → AgentHolds (after_load o r w s).1 others bad
unfolding after_load
after_load-Holds o (ok certs) w s others bad nil holds =
    load_each-Holds o certs [] w others bad holds
after_load-Holds o (err e) w s others bad nil holds = rw nil holds
after_load-Holds o panic w s others bad nil holds = rw nil holds

load_certs-Holds :
    (o : Outside) (s : CapiAgent) (others : List ℕ) (bad : ℕ)
    → o.store.end ≡ no_more
    → s.keys ≡ none
    → AgentHolds s others bad
    → AgentHolds (load_certs o s).1 others bad
unfolding load_certs
load_certs-Holds o s others bad ends nil holds =
    let (r, w) = load_user_certs o.api o.store s.windows in
    after_load-Holds o r w s others bad nil (
      load_user_certs-Holds o.api o.store s.windows others bad ends (
        subst (λ (k : Option (List SshKey)). Holds s.windows (held (keys_of k)) others bad) nil
          holds))

pub keys-close : (o : Outside) (s : CapiAgent) → (close o s).1.keys ≡ none
unfolding close
keys-close o s = refl

-- Closing an agent that holds one reference for each of its keys gives back every one of them, each
-- once, and no other.
pub close-Holds :
    (o : Outside) (s : CapiAgent) (others : List ℕ) (bad : ℕ)
    → AgentHolds s others bad
    → let s' = (close o s).1 in (s'.keys ≡ none) × Holds s'.windows [] others bad
unfolding close
close-Holds o s others bad holds =
    (refl, close_keys-Holds o.api (keys_of s.keys) none s.windows others bad holds)

close_loaded-Holds :
    (o : Outside) (s : CapiAgent) (loaded : Option (List SshKey)) (others : List ℕ) (bad : ℕ)
    → s.keys ≡ loaded
    → AgentHolds s others bad
    → let s' = close_loaded o loaded s in (s'.keys ≡ none) × AgentHolds s' others bad
unfolding close_loaded
close_loaded-Holds o s none others bad e holds = (e, holds)
close_loaded-Holds o s (some ks) others bad e holds = close-Holds o s others bad holds

continue-list_keys : (r : Result (Unit {0})) (s : CapiAgent) → (continue r (λ _. list_keys) s).1 ≡ s
unfolding list_keys
continue-list_keys (ok u) s = refl
continue-list_keys (err e) s = refl
continue-list_keys panic s = refl

list-after_load :
    (o : Outside) (s : CapiAgent) → (list o s).1 ≡ (load_certs o (close_loaded o s.keys s)).1
unfolding list
list-after_load o s = continue-list_keys _ _

-- If the agent holds exactly one reference for each of its keys, it does so after listing its keys,
-- whatever was loaded before and whatever fails on the way, and no reference is freed twice, if the
-- enumeration of the store comes to its end.
pub list-Holds :
    (o : Outside) (s : CapiAgent) (others : List ℕ) (bad : ℕ)
    → o.store.end ≡ no_more
    → AgentHolds s others bad
    → AgentHolds (list o s).1 others bad
list-Holds o s others bad ends holds =
    let (nil, closed) = close_loaded-Holds o s s.keys others bad refl holds in
    rw (list-after_load o s)
      (load_certs-Holds o (close_loaded o s.keys s) others bad ends nil closed)
