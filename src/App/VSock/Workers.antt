-- ===== src/App/VSock/Workers.antt =====
-- Which machines have a worker after a round.
use keybridge.Base.{
  ℕ, ◌≡◌, refl, ap, ◌∙◌, List, [], ◌∷◌, ◌++◌, Bool, true, false, Option, none, some, ◌==◌,
  if◌then◌else◌, arith, Bool-cases, inl, inr,
}
use keybridge.App.VSock.{
  has, missing, lookup, delete, Watcher, idle, start_worker, start_workers, stop_worker,
  stop_workers, round,
}

has-missing :
    (v : ℕ) (xs ids : List ℕ) → has v (missing xs ids) ≡ (if has v ids then false else has v xs)
unfolding missing
has-missing v [] ids = if_same (has v ids)
  where
    if_same : (b : Bool) → false ≡ (if b then false else false)
    if_same true = refl
    if_same false = refl
has-missing v (x ∷ xs) ids = ground (arith, has-missing v xs ids)

lookup-delete :
    (v k : ℕ) (ws : List (ℕ × ℕ)) → lookup v (delete k ws) ≡ (if v == k then none else lookup v ws)
lookup-delete v k [] = ground arith
lookup-delete v k ((j, w) ∷ ws) = ground (arith, lookup-delete v k ws)

abbrev pub or_else : Option ℕ → Option ℕ → Option ℕ
or_else (some a) b = some a
or_else none b = b

lookup-start_worker :
    (o : Option ℕ) (v x : ℕ) (ws : List (ℕ × ℕ))
    → lookup v (start_worker o x ws) ≡ (if v == x then or_else o (lookup v ws) else lookup v ws)
unfolding start_worker
lookup-start_worker none v x ws = ground arith
lookup-start_worker (some w) v x ws = ground (arith, lookup-delete v x ws)

-- After the new machines' listeners: a machine that was started has its listener, if listening succeeded.
lookup-start_workers :
    (listen : ℕ → Option ℕ) (v : ℕ) (vs : List ℕ) (ws : List (ℕ × ℕ))
    → lookup v (start_workers listen vs ws)
      ≡ (if has v vs then or_else (listen v) (lookup v ws) else lookup v ws)
unfolding start_workers
lookup-start_workers listen v [] ws = refl
lookup-start_workers listen v (x ∷ vs) ws =
    lookup-start_workers listen v vs (start_worker (listen x) x ws)
    ∙ ground (arith, lookup-start_worker (listen x) v x ws)

lookup-stop_worker :
    (o : Option ℕ) (v x : ℕ) (s : List (ℕ × ℕ) × List ℕ)
    → lookup x s.0 ≡ o
    → lookup v (stop_worker o x s).0 ≡ (if v == x then none else lookup v s.0)
unfolding stop_worker
lookup-stop_worker none v x s e = ground arith
lookup-stop_worker (some w) v x (ws, c) e = lookup-delete v x ws

lookup-stop_workers :
    (v : ℕ) (vs : List ℕ) (s : List (ℕ × ℕ) × List ℕ)
    → lookup v (stop_workers vs s).0 ≡ (if has v vs then none else lookup v s.0)
unfolding stop_workers
lookup-stop_workers v [] s = refl
lookup-stop_workers v (x ∷ vs) s =
    lookup-stop_workers v vs (stop_worker (lookup x s.0) x s)
    ∙ ground (arith, lookup-stop_worker (lookup x s.0) v x s refl)

-- Only machines of the last list have a worker.
unfoldable pub Covered : Watcher → Type 0
Covered s = (v : ℕ) → has v s.last_vmids ≡ false → lookup v s.workers ≡ none

lookup-round :
    (listen : ℕ → Option ℕ) (vmids : List ℕ) (s : Watcher) (v : ℕ)
    → Covered s
    → lookup v (round listen vmids s).workers ≡ (
        if has v vmids then (if has v s.last_vmids then lookup v s.workers else listen v) else none)
unfolding round Covered
lookup-round listen vmids s v c =
    let stops =
      lookup-stop_workers v (missing s.last_vmids vmids)
        (start_workers listen (missing vmids s.last_vmids) s.workers, s.closed) in
    let starts = lookup-start_workers listen v (missing vmids s.last_vmids) s.workers in
    let gone = has-missing v s.last_vmids vmids in
    let new = has-missing v vmids s.last_vmids in ground (arith, stops, starts, gone, new, c v)

-- The rounds of a run of the watcher: what listening returned, and the machines that ran.
abbrev pub Round : Type 0
Round = (ℕ → Option ℕ) × List ℕ

abbrev pub watch : List Round → Watcher → Watcher
watch [] s = s
watch ((listen, vmids) ∷ rs) s = watch rs (round listen vmids s)

-- One machine by itself: whether it runs, and its listener. It is listened for once, when it appears.
abbrev pub machine : ℕ → List Round → Bool × Option ℕ → Bool × Option ℕ
machine v [] m = m
machine v ((listen, vmids) ∷ rs) (runs, worker) =
    machine v rs (if has v vmids then (true, if runs then worker else listen v) else (false, none))

Covered-round :
    (listen : ℕ → Option ℕ) (vmids : List ℕ) (s : Watcher)
    → Covered s
    → Covered (round listen vmids s)
unfolding Covered round
Covered-round listen vmids s c v h = ground (arith, lookup-round listen vmids s v c)

last-round :
    (listen : ℕ → Option ℕ) (vmids : List ℕ) (s : Watcher)
    → (round listen vmids s).last_vmids ≡ vmids
unfolding round
last-round listen vmids s = refl

watch-machine :
    (rs : List Round) (s : Watcher) (v : ℕ)
    → Covered s
    → (has v (watch rs s).last_vmids, lookup v (watch rs s).workers)
      ≡ machine v rs (has v s.last_vmids, lookup v s.workers)
watch-machine [] s v c = refl
watch-machine ((listen, vmids) ∷ rs) s v c =
    watch-machine rs (round listen vmids s) v (Covered-round listen vmids s c)
    ∙ ap (machine v rs) (ground (arith, lookup-round listen vmids s v c, last-round listen vmids s))

-- Started with nothing, the watcher treats each machine as if it were alone, over any sequence of rounds:
-- it has the listener of the round it appeared in, or none if listening failed then, until it is gone.
pub wsl2_watcher-machine :
    (rs : List Round) (v : ℕ)
    → (has v (watch rs idle).last_vmids, lookup v (watch rs idle).workers)
      ≡ machine v rs (false, none)
unfolding Covered
wsl2_watcher-machine rs v = watch-machine rs idle v (λ u h. refl)

-- The machine runs in every round.
abbrev pub Always : ℕ → List Round → Type 0
Always v [] = Unit {0}
Always v ((listen, vmids) ∷ rs) = (has v vmids ≡ true) × Always v rs

-- A machine that was seen before and has no worker, since its listener failed when it appeared, gets
-- none in any later round as long as it runs, whatever listening returns then.
pub wsl2_watcher_no_retry :
    (v : ℕ) (rs : List Round) (s : Watcher)
    → Covered s
    → has v s.last_vmids ≡ true
    → lookup v s.workers ≡ none
    → Always v rs
    → lookup v (watch rs s).workers ≡ none
wsl2_watcher_no_retry v [] s c h n a = n
wsl2_watcher_no_retry v ((listen, vmids) ∷ rs) s c h n (a, b) =
    wsl2_watcher_no_retry v rs (round listen vmids s) (Covered-round listen vmids s c)
      (ground (arith, last-round listen vmids s)) (ground (arith, lookup-round listen vmids s v c))
      b

has-append : (w : ℕ) (xs ys : List ℕ) → has w (xs ++ ys) ≡ (if has w xs then true else has w ys)
has-append w [] ys = refl
has-append w (x ∷ xs) ys = ground (arith, has-append w xs ys)

stop_worker-closed :
    (o : Option ℕ) (w x : ℕ) (s : List (ℕ × ℕ) × List ℕ)
    → has w s.1 ≡ true
    → has w (stop_worker o x s).1 ≡ true
unfolding stop_worker
stop_worker-closed none w x s h = h
stop_worker-closed (some k) w x (ws, c) h = ground (arith, has-append w c (k ∷ []))

stop_workers-closed :
    (w : ℕ) (vs : List ℕ) (s : List (ℕ × ℕ) × List ℕ)
    → has w s.1 ≡ true
    → has w (stop_workers vs s).1 ≡ true
unfolding stop_workers
stop_workers-closed w [] s h = h
stop_workers-closed w (x ∷ vs) s h =
    stop_workers-closed w vs (stop_worker (lookup x s.0) x s)
      (stop_worker-closed (lookup x s.0) w x s h)

stops :
    (o : Option ℕ) (w x : ℕ) (s : List (ℕ × ℕ) × List ℕ)
    → o ≡ some w
    → has w (stop_worker o x s).1 ≡ true
unfolding stop_worker
stops none w x s e = ground arith
stops (some k) w x (ws, c) e = ground (arith, has-append w c (k ∷ []))

stop_workers_closes :
    (v w : ℕ) (vs : List ℕ) (s : List (ℕ × ℕ) × List ℕ)
    → has v vs ≡ true
    → lookup v s.0 ≡ some w
    → has w (stop_workers vs s).1 ≡ true
unfolding stop_workers
stop_workers_closes v w [] s h e = ground arith
stop_workers_closes v w (x ∷ vs) s h e =
    let s' = stop_worker (lookup x s.0) x s in
    elim (Bool-cases (v == x)) [
      | inl q ↦ stop_workers-closed w vs s' (
          stops (lookup x s.0) w x s
            (ap (λ y. lookup y s.0) (let p : x ≡ v = ground arith in p) ∙ e))
      | inr q ↦
          stop_workers_closes v w vs s' (ground arith)
            (ground (arith, lookup-stop_worker (lookup x s.0) v x s refl))
    ]

-- If a machine that had a worker is gone, the worker's listener is closed in the round that notices
-- it.
pub wsl2_watcher_closes :
    (listen : ℕ → Option ℕ) (vmids : List ℕ) (s : Watcher) (v w : ℕ)
    → has v s.last_vmids ≡ true
    → has v vmids ≡ false
    → lookup v s.workers ≡ some w
    → has w (round listen vmids s).closed ≡ true
unfolding round
wsl2_watcher_closes listen vmids s v w h g e =
    stop_workers_closes v w (missing s.last_vmids vmids) _
      (ground (arith, has-missing v s.last_vmids vmids))
      (ground (
        arith,
        lookup-start_workers listen v (missing vmids s.last_vmids) s.workers,
        has-missing v vmids s.last_vmids,
      ))
