-- ===== src/App/Serving.antt =====
-- The accept loops of package app, the Run methods of app/pipe.go, app/pageant.go, app/xshell.go,
-- app/vsock.go, app/cygwin.go and app/wsl.go, with the handlers that they start and the context that is
-- cancelled while they run. Each loop is a record of what it does; the steps below interleave it with its
-- handlers.
pub mod Loops
pub mod Ends
pub mod Shutdown
mod Tests
use keybridge.Base.{ℕ, suc, ◌≡◌, List, [], ◌∷◌, ◌++◌, Bool, true, false, Option, if◌then◌else◌}
use keybridge.Base.Outcome.{Error}

-- Where a Run method stands: in its loop, in `wg.Wait()` with what it will return, and behind its return;
-- or the process has ended by a panic.
pub data Phase : Type 0 where
  listening : Phase
  waiting : Option Error → Phase
  returned : Option Error → Phase
  crashed : Phase

-- `handlers` counts the handlers that run, as the WaitGroup does, and `finished` those that have
-- returned; `served` are the connections that went to a handler, `refused` those that were closed instead,
-- and `errors` what Accept has failed with, oldest first; `is_open` is whether the listener is still open; Pageant
-- has no listener but its window.
pub record Serving : Type 0 where
  pub phase : Phase
  pub handlers : ℕ
  pub finished : ℕ
  pub served : List ℕ
  pub refused : List ℕ
  pub errors : List Error
  pub cancelled : Bool
  pub is_open : Bool

abbrev pub listening_first : Serving
listening_first = record {
  phase = listening;
  handlers = 0;
  finished = 0;
  served = [];
  refused = [];
  errors = [];
  cancelled = false;
  is_open = true;
}

-- What a Run method does with a connection, with an error of Accept, and when it notices that the context
-- is cancelled, be it in a goroutine of its own. `can_fail` says which errors Accept can return, and `closes`
-- whether the deferred calls of the method take away its listener.
pub record Loop : Type 0 where
  pub on_conn : ℕ → Serving → Serving
  pub on_error : Error → Serving → Serving
  pub on_cancelled : Serving → Serving
  pub can_fail : Error → Serving → Bool
  pub closes : Bool

-- `wg.Add(1)` and the start of a handler
abbrev pub serve : ℕ → Serving → Serving
serve conn s = record s { handlers = suc s.handlers; served = s.served ++ conn ∷ [] }

-- `conn.Close(); continue`
abbrev pub refuse : ℕ → Serving → Serving
refuse conn s = record s { refused = s.refused ++ conn ∷ [] }

abbrev pub note : Error → Serving → Serving
note e s = record s { errors = s.errors ++ e ∷ [] }

-- `wg.Wait()` and then `return`
abbrev pub wait_for : Option Error → Serving → Serving
wait_for r s = record s { phase = waiting r }

-- `return` with the deferred calls, by whether they close the listener
abbrev pub leave : Bool → Option Error → Serving → Serving
leave closes r s = record s { phase = returned r; is_open = if closes then false else s.is_open }

-- One step of the method, of one of its handlers, or of the process that cancels the context. A handler
-- that has started runs on when the method has returned.
pub data Step (loop : Loop) (s t : Serving) : Type 0 where
  accepted :
      (conn : ℕ) → s.phase ≡ listening → s.is_open ≡ true → t ≡ loop.on_conn conn s → Step loop s t
  failed :
      (e : Error)
      → s.phase ≡ listening
      → loop.can_fail e s ≡ true
      → t ≡ loop.on_error e (note e s)
      → Step loop s t
  cancel : s.cancelled ≡ false → t ≡ record s { cancelled = true } → Step loop s t
  noticed : s.phase ≡ listening → s.cancelled ≡ true → t ≡ loop.on_cancelled s → Step loop s t
  handled :
      (n : ℕ)
      → s.handlers ≡ suc n
      → t ≡ record s { handlers = n; finished = suc s.finished }
      → Step loop s t
  left :
      (r : Option Error)
      → s.phase ≡ waiting r
      → s.handlers ≡ 0
      → t ≡ leave loop.closes r s
      → Step loop s t

-- Any interleaving of them.
pub data Reach (loop : Loop) (s : Serving) : Serving → Type 0 where
  here : Reach loop s s
  next : {t u : Serving} → Reach loop s t → Step loop t u → Reach loop s u

pub Reach-append :
    {loop : Loop} {s t u : Serving} → Reach loop s t → Reach loop t u → Reach loop s u
Reach-append r here = r
Reach-append r (next more st) = next (Reach-append r more) st
