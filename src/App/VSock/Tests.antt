-- ===== src/App/VSock/Tests.antt =====
-- Runs and instances of the theorems about app/vsock.go.
use keybridge.Base.{
  ℕ, arith, ◌+◌, ◌≡◌, refl, List, [], ◌∷◌, true, false, Option, none, some, if◌then◌else◌, ◌==◌,
}
use keybridge.App.VSock.{vmid_diff, lookup, idle, round}
use keybridge.App.VSock.Workers.{Round}
use keybridge.App.VSock.Watch.{cancelled, notified, Turn, wsl2_watcher}
use keybridge.App.VSock.Watch.Ended.{wsl2_watcher_ends}

-- Listening fails for machine 2.
abbrev listen : ℕ → Option ℕ
listen v = if v == 2 then none else some (100 + v)

-- Listening succeeds for every machine.
abbrev listen_later : ℕ → Option ℕ
listen_later v = some (200 + v)

abbrev rounds : List Round
rounds = (listen, 1 ∷ 2 ∷ []) ∷ (listen_later, 2 ∷ 3 ∷ []) ∷ []

diff_run : vmid_diff (1 ∷ 2 ∷ []) (2 ∷ 3 ∷ []) ≡ (3 ∷ [], 1 ∷ [])
unfolding vmid_diff
diff_run = refl

round_run : (round listen_later (2 ∷ 3 ∷ []) (round listen (1 ∷ 2 ∷ []) idle)).closed ≡ 101 ∷ []
unfolding round
round_run = refl

-- A process event begins a second round, and then the context is cancelled.
abbrev first_turn : Turn
first_turn = record { listen = listen; vmids = 1 ∷ 2 ∷ []; wake = notified 0 }

abbrev last_turn : Turn
last_turn = record { listen = listen_later; vmids = 2 ∷ 3 ∷ []; wake = cancelled }

watcher_cancelled :
    let s = wsl2_watcher none (first_turn ∷ last_turn ∷ []) in
    (s.returned ≡ true)
    × (s.notifying ≡ false)
    × (lookup 3 s.watcher.workers ≡ some 203)
    × (s.watcher.closed ≡ 101 ∷ [])
unfolding round
watcher_cancelled =
    wsl2_watcher_ends none (first_turn ∷ []) last_turn [] 3 (λ e. ground (arith, e), tt) refl
