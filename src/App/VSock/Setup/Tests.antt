-- ===== src/App/VSock/Setup/Tests.antt =====
-- Runs of what app/vsock.go does around its loops.
use keybridge.Base.{◌≡◌, refl, [], ◌∷◌, true, false, none, some, inl, inr}
use keybridge.Base.Outcome.{eof, ok}
use keybridge.App.VSock.Setup.{
  start, listening_by, new_vsock_worker, run_worker, connected, failed, poll_seconds,
}

start_run :
    start false true true (inr 8) (record { running = false })
    ≡ (ok (some 8), record { running = true })
unfolding start listening_by
start_run = refl

guest_run :
    start true true true (inr 8) (record { running = false })
    ≡ (ok none, record { running = false })
unfolding start
guest_run = refl

worker_run : new_vsock_worker (λ v. inr 6) (λ g. inl eof) 3 ≡ inl eof
unfolding new_vsock_worker
worker_run = refl

conns_run : run_worker (connected 4 ∷ failed eof ∷ connected 5 ∷ []) ≡ 4 ∷ []
unfolding run_worker
conns_run = refl

poll_run : poll_seconds (some eof) ≡ 15
unfolding poll_seconds
poll_run = refl
