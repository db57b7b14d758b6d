-- ===== src/SshAgent/HyperV/Interleaved.antt =====
-- The requests of several clients at the same time, each in a goroutine of its own: no lock keeps them apart, so
-- their connections to the host are opened and closed in any order.
use keybridge.Base.{
  ℕ, ◌+◌, ◌≤◌, ◌≡◌, refl, ap, sym, subst, List, [], ◌∷◌, ◌++◌, ◌⊎◌, inl, inr, ◌==◌, if◌then◌else◌,
  arith, length, length-append,
}
use keybridge.Base.Outcome.{Error, Result, ok, err, panic}
use keybridge.SshAgent.HyperV.{Parent, Links, dialled, connect_by, connect_hyper_v, closing}

-- `running` are the connections whose requests have not returned.
pub record Sessions : Type 0 where
  pub links : Links
  pub running : List ℕ

abbrev pub no_sessions : Sessions
no_sessions = record { links = record { dials = 0; opened = []; closed = [] }; running = [] }

-- The request goes on over its connection, if there is one.
abbrev pub with_running : Result ℕ → List ℕ → List ℕ
with_running (ok conn) running = conn ∷ running
with_running (err e) running = running
with_running panic running = running

-- The step of a request's goroutine up to its connection, and the one behind its call of the host, with the
-- deferred Close, whatever the call returns.
pub data Step (p : Parent) (s t : Sessions) : Type 0 where
  begins :
      t ≡ record s {
        links = (connect_hyper_v p s.links).1;
        running = with_running (connect_hyper_v p s.links).0 s.running;
      }
      → Step p s t
  lists :
      (before behind : List ℕ) (conn : ℕ)
      → s.running ≡ before ++ conn ∷ behind
      → t ≡ record s {
        links = (closing p.client_list (ok conn) s.links).1;
        running = before ++ behind;
      }
      → Step p s t
  signs :
      (before behind : List ℕ) (conn : ℕ) (key bytes : List ℕ)
      → s.running ≡ before ++ conn ∷ behind
      → t ≡ record s {
        links = (closing (λ conn. p.client_sign conn key bytes) (ok conn) s.links).1;
        running = before ++ behind;
      }
      → Step p s t

-- Any interleaving of them.
pub data Reach (p : Parent) (s : Sessions) : Sessions → Type 0 where
  here : Reach p s s
  next : {t u : Sessions} → Reach p s t → Step p t u → Reach p s u

-- How often a connection is in a list.
abbrev pub times : ℕ → List ℕ → ℕ
times x [] = 0
times x (y ∷ ys) = (if x == y then 1 else 0) + times x ys

times-append : (x : ℕ) (xs ys : List ℕ) → times x (xs ++ ys) ≡ times x xs + times x ys
times-append x [] ys = omega arith
times-append x (y ∷ xs) ys = omega (arith, times-append x xs ys)

-- Each connection that was opened was closed, or is one of a request that runs, as often as it was opened; and
-- none came without a dial.
pub record IsBalanced (s : Sessions) : Type 0 where
  pub each :
      (conn : ℕ) → times conn s.links.opened ≡ times conn s.links.closed + times conn s.running
  pub each_dialled : length s.links.opened ≤ s.links.dials

-- A connection that is opened by a request.
dialled-IsBalanced :
    (s : Sessions) (d : Error ⊎ ℕ)
    → IsBalanced s
    → IsBalanced (record {
      links = (dialled d s.links).1;
      running = with_running (dialled d s.links).0 s.running;
    })
unfolding dialled
dialled-IsBalanced s (inl e) i = record {
  each = i.each;
  each_dialled = let b = i.each_dialled in omega (arith, b);
}
dialled-IsBalanced s (inr conn) i = record {
  each = λ x. omega (arith, i.each x, times-append x s.links.opened (conn ∷ []));
  each_dialled = omega (arith, i.each_dialled, length-append s.links.opened (conn ∷ []));
}

connected-IsBalanced :
    (p : Parent) (s : Sessions) (g : Error ⊎ ℕ)
    → IsBalanced s
    → IsBalanced (record {
      links = (connect_by p g s.links).1;
      running = with_running (connect_by p g s.links).0 s.running;
    })
unfolding connect_by
connected-IsBalanced p s (inl e) i = record { each = i.each; each_dialled = i.each_dialled }
connected-IsBalanced p s (inr svcid) i = dialled-IsBalanced s (p.dial svcid s.links.dials) i

-- A connection that is closed behind a call, whatever this returns.
closed-IsBalanced :
    {A : Type 0} (op : ℕ → Result A) (s : Sessions) (before behind : List ℕ) (conn : ℕ)
    → s.running ≡ before ++ conn ∷ behind
    → IsBalanced s
    → IsBalanced (record { links = (closing op (ok conn) s.links).1; running = before ++ behind })
unfolding closing
closed-IsBalanced op s before behind conn e i = record {
  each = λ x. omega (
    arith,
    i.each x,
    ap (times x) e,
    times-append x before (conn ∷ behind),
    times-append x before behind,
    times-append x s.links.closed (conn ∷ []),
  );
  each_dialled = i.each_dialled;
}

Step-IsBalanced : (p : Parent) (s t : Sessions) → Step p s t → IsBalanced s → IsBalanced t
unfolding connect_hyper_v
Step-IsBalanced p s t (begins e) i =
    subst IsBalanced (sym e) (connected-IsBalanced p s p.guid_from_string i)
Step-IsBalanced p s t (lists before behind conn at e) i =
    subst IsBalanced (sym e) (closed-IsBalanced p.client_list s before behind conn at i)
Step-IsBalanced p s t (signs before behind conn key bytes at e) i =
    subst IsBalanced (sym e)
      (closed-IsBalanced (λ conn. p.client_sign conn key bytes) s before behind conn at i)

-- However the requests of the guest's agent interleave, and however they end, by an error of dialling, an error of
-- the host's agent or a panic: each connection to the host was closed exactly as often as it was opened, but
-- for those of the requests that still run; and no more connections were opened than dialled.
pub Reach-IsBalanced : (p : Parent) (s : Sessions) → Reach p no_sessions s → IsBalanced s
Reach-IsBalanced p s here = record { each = λ x. refl; each_dialled = omega arith }
Reach-IsBalanced p s (next {t = m} r st) = Step-IsBalanced p m s st (Reach-IsBalanced p m r)
