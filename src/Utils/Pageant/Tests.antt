-- ===== src/Utils/Pageant/Tests.antt =====
-- Runs and instances of the theorems about utils/pageant.go.
use keybridge.Base.{
  ◌↔◌, ◌<◌, ◌≤◌, ◌++◌, length, take, drop, ℕ, ◌≡◌, ◌≢◌, refl, List, [], ◌∷◌, false, ◌⊎◌, inr, ◌==◌,
}
use keybridge.Base.Bytes.{big_endian}
use keybridge.Utils.Mmap.{Response, replied, new_conn, write, close}
use keybridge.Utils.Mmap.Session.{Call, writes, closes, run}
use keybridge.Utils.Pageant.{Answers, Desk, wnd_proc}
use keybridge.Utils.Pageant.Written.{written, Passes, wnd_proc-written}
use keybridge.Base.Outcome.{ok, panic}
use keybridge.Utils.Pageant.Guards.{Faulted}
use keybridge.Utils.Pageant.Guards.{asked, Served, wnd_proc-Handled}

abbrev windows : Answers
windows = record {
  def_window_proc = 77;
  file_mapping = 5;
  user_sid = inr 1;
  default_sid = inr 2;
  map_owner = inr 1;
  equal_sid = λ a b. a == b;
  view_error = false;
}

abbrev desk : List ℕ → Desk
desk memory = record { mappings = 0; views = 0; memory = memory; requests = [] }

abbrev serve : List ℕ → Response
serve request = replied (0 ∷ 0 ∷ 0 ∷ 1 ∷ 5 ∷ [])

abbrev shared : List ℕ
shared = 0 ∷ 0 ∷ 0 ∷ 1 ∷ 11 ∷ 8 ∷ []

served_run : wnd_proc windows serve 0x004a 0x804e50ba (desk shared) ≡ (
  ok 1,
  record (desk (0 ∷ 0 ∷ 0 ∷ 1 ∷ 5 ∷ 8 ∷ [])) { requests = (0 ∷ 0 ∷ 0 ∷ 1 ∷ 11 ∷ []) ∷ [] },
)
unfolding wnd_proc big_endian
served_run = refl

-- The length field 255, 255, 255, 254 and 4 wrap to a request of two bytes, without its header.
wrapped_run :
    (wnd_proc windows serve 0x004a 0x804e50ba (desk (255 ∷ 255 ∷ 255 ∷ 254 ∷ []))).1.requests
    ≡ (255 ∷ 255 ∷ []) ∷ []
unfolding wnd_proc big_endian
wrapped_run = refl

message_handled :
    ((◌≢◌ {A = ℕ} 0x004a 0x004a)
      × (wnd_proc windows serve 0x004a 0x804e50ba (desk shared) ≡ (ok 77, desk shared)))
    ⊎ ((◌≡◌ {A = ℕ} 0x004a 0x004a)
        × (wnd_proc windows serve 0x004a 0x804e50ba (desk shared) ≡ (ok 0, desk shared)))
    ⊎ ((◌≡◌ {A = ℕ} 0x004a 0x004a)
        × (◌≡◌ {A = ℕ} 0x804e50ba 0x804e50ba)
        × (Faulted windows (desk shared) (wnd_proc windows serve 0x004a 0x804e50ba (desk shared))
            ⊎ Served windows serve
                (desk shared)
                (wnd_proc windows serve 0x004a 0x804e50ba (desk shared))))
message_handled = wnd_proc-Handled windows serve 0x004a 0x804e50ba (desk shared)

-- A handler that writes the reply in two pieces.
abbrev in_pieces : List ℕ → List Call
in_pieces request = writes (0 ∷ 0 ∷ 0 ∷ 1 ∷ []) ∷ writes (5 ∷ []) ∷ closes ∷ []

pieces_respond : (q : List ℕ) → (run (in_pieces q) (new_conn q)).responses ≡ serve q ∷ []
unfolding new_conn write close
pieces_respond q = refl

pieces_written :
    let r = wnd_proc windows serve 0x004a 0x804e50ba (desk shared) in
    let reply = written (in_pieces (take (asked shared) shared)) in
    ((r.0 ≡ ok 1) ↔ (
      Passes windows 0x804e50ba (desk shared)
      × (0 < length reply)
      × (length reply ≤ 8192)
      × (length reply ≤ length shared)))
    × ((r.0 ≡ ok 1) → r.1.memory ≡ reply ++ drop (length reply) shared)
pieces_written = wnd_proc-written windows serve in_pieces 0x804e50ba (desk shared) pieces_respond

-- A view of three bytes ends before the length.
fault_run : (wnd_proc windows serve 0x004a 0x804e50ba (desk (0 ∷ 0 ∷ 0 ∷ []))).0 ≡ panic
unfolding wnd_proc big_endian
fault_run = refl
