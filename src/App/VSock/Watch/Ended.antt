-- ===== src/App/VSock/Watch/Ended.antt =====
-- How the watcher ends.
use keybridge.Base.{
  ℕ, ◌≡◌, ◌≢◌, refl, ap, ◌∙◌, List, [], ◌∷◌, ◌++◌, map, Bool, true, false, Option, none, some, All,
}
use keybridge.Base.Outcome.{Error}
use keybridge.App.VSock.{Watcher, idle, lookup, round}
use keybridge.App.VSock.Workers.{Round, watch, machine, wsl2_watcher-machine}
use keybridge.App.VSock.Watch.{
  Wake, cancelled, notified, timed_out, Turn, Watch, begin, leave, wait, watch_loop, wsl2_watcher,
}

-- The round of a turn, as the workers' model has it.
abbrev pub rounds_of : List Turn → List Round
rounds_of = map (λ (r : Turn). (r.listen, r.vmids))

wait-other : (w : Wake) (s : Watch) (more : Watch → Watch) → w ≢ cancelled → wait w s more ≡ more s
unfolding wait
wait-other cancelled s more other = absurd (other refl)
wait-other (notified event) s more other = refl
wait-other timed_out s more other = refl

loop-ended :
    (before : List Turn) (last : Turn) (behind : List Turn) (s : Watch)
    → All (λ r. r.wake ≢ cancelled) before
    → last.wake ≡ cancelled
    → watch_loop (before ++ last ∷ behind) s
      ≡ leave (record s { watcher = watch (rounds_of (before ++ last ∷ [])) s.watcher })
unfolding watch_loop
loop-ended [] last behind s others at =
    ap
      (λ w.
        wait w (record s { watcher = round last.listen last.vmids s.watcher }) (watch_loop behind))
      at
    ∙ unfold wait in refl
loop-ended (r ∷ before) last behind s others at =
    wait-other r.wake (record s { watcher = round r.listen r.vmids s.watcher })
      (watch_loop (before ++ last ∷ behind)) others.0
    ∙ loop-ended before last behind (record s { watcher = round r.listen r.vmids s.watcher })
        others.1 at

begin-idle : (new_error : Option Error) → (begin new_error).watcher ≡ idle
unfolding begin
begin-idle none = refl
begin-idle (some e) = refl

-- The watcher returns in the first round behind which it finds its context cancelled, whatever would come
-- later; until then each process event and each timeout begins a round, whether or not notifications can
-- be had. It has then stopped the notifications, and it leaves every machine with the listener that this
-- machine alone would have: that of the round it appeared in, if listening succeeded there and it still
-- ran in the last round. On its return it closes no listener besides those that the rounds have closed.
pub wsl2_watcher_ends :
    (new_error : Option Error) (before : List Turn) (last : Turn) (behind : List Turn) (v : ℕ)
    → All (λ r. r.wake ≢ cancelled) before
    → last.wake ≡ cancelled
    → let s = wsl2_watcher new_error (before ++ last ∷ behind) in
      let rounds = rounds_of (before ++ last ∷ []) in
      (s.returned ≡ true)
      × (s.notifying ≡ false)
      × (lookup v s.watcher.workers ≡ (machine v rounds (false, none)).1)
      × (s.watcher.closed ≡ (watch rounds idle).closed)
unfolding wsl2_watcher leave
wsl2_watcher_ends new_error before last behind v others at =
    let e = loop-ended before last behind (begin new_error) others at in
    let rounds = rounds_of (before ++ last ∷ []) in
    let from_idle = ap (λ (w : Watcher). watch rounds w) (begin-idle new_error) in
    (
      ap (λ (s : Watch). s.returned) e,
      ap (λ (s : Watch). s.notifying) e,
      ap (λ (s : Watch). lookup v s.watcher.workers) e
          ∙ ap (λ (w : Watcher). lookup v w.workers) from_idle
          ∙ ap (λ (m : Bool × Option ℕ). m.1) (wsl2_watcher-machine rounds v),
      ap (λ (s : Watch). s.watcher.closed) e ∙ ap (λ (w : Watcher). w.closed) from_idle,
    )
