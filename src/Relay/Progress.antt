-- ===== src/Relay/Progress.antt =====
-- The relay comes to its end.
use keybridge.Base.{ℕ, suc, ◌+◌, ◌≡◌, Bool, true, false, none, some}
use keybridge.Relay.{
  Flags, StdinSide, PipeSide, signalled, done, waiting, Relay, Step, copy_in, end_in, fail_in,
  signal, finish_in, copy_out, end_out, fail_out, finish_out, stdin_done, drain_timeout, exit_in,
  exit_out,
}

-- The steps that a copy of io.Copy makes, each for some bytes that have come.
abbrev pub is_copy : {flags : Flags} {w : Bool} {s t : Relay} → Step flags w s t → Bool
is_copy (copy_in chunk n c e) = true
is_copy (copy_out chunk n c e) = true
is_copy (end_in n c e) = false
is_copy (fail_in x n c e) = false
is_copy (signal x n c e) = false
is_copy (finish_in n c e) = false
is_copy (end_out n c e) = false
is_copy (fail_out x n c e) = false
is_copy (finish_out x n c e) = false
is_copy (exit_in n c e) = false
is_copy (exit_out n c e) = false
is_copy (stdin_done n c d e) = false
is_copy (drain_timeout n c e) = false

-- A run with so many steps that copy nothing.
pub data Run (flags : Flags) (is_close_writer : Bool) (s : Relay) : ℕ → Relay → Type 0 where
  start : Run flags is_close_writer s 0 s
  copied :
      {n : ℕ} {t u : Relay}
      → Run flags is_close_writer s n t
      → (st : Step flags is_close_writer t u) → is_copy st ≡ true
      → Run flags is_close_writer s n u
  turned :
      {n : ℕ} {t u : Relay}
      → Run flags is_close_writer s n t
      → (st : Step flags is_close_writer t u) → is_copy st ≡ false
      → Run flags is_close_writer s (suc n) u

abbrev stdin_rank : StdinSide → ℕ
stdin_rank StdinSide.copying = 3
stdin_rank StdinSide.ended = 2
stdin_rank signalled = 1
stdin_rank done = 0
stdin_rank StdinSide.failing = 0

abbrev pipe_rank : PipeSide → ℕ
pipe_rank PipeSide.copying = 2
pipe_rank PipeSide.ended = 1
pipe_rank waiting = 0
pipe_rank PipeSide.failing = 0

-- How many steps that copy nothing may still come.
abbrev rank : Relay → ℕ
rank s = elim s.exit_code [
  | none ↦ stdin_rank s.stdin_side + pipe_rank s.pipe_side + 1
  | some code ↦ 0
]

-- A process has ended, still copies from the pipe, or can take a step that waits for nothing outside.
pub data Goes (flags : Flags) (is_close_writer : Bool) (s : Relay) : Type 0 where
  over : (code : ℕ) → s.exit_code ≡ some code → Goes flags is_close_writer s
  copies : s.pipe_side ≡ PipeSide.copying → Goes flags is_close_writer s
  turns :
      (t : Relay) (st : Step flags is_close_writer s t)
      → is_copy st ≡ false
      → Goes flags is_close_writer s
