-- ===== src/Utils/Clipboard/Tests.antt =====
-- Runs and instances of the theorem about utils/clipboard.go.
use keybridge.Base.{ℕ, ◌≡◌, refl, List, [], ◌∷◌, true, false, Option, none, some, inr}
use keybridge.Base.Outcome.{Error, eof}
use keybridge.Utils.Clipboard.{
  Calls, Clipboard, set_clip_board, wait_open_clipboard, wait_open, after_open, with_text,
  with_block, set_data, free_block,
}
use keybridge.Utils.Clipboard.Blocks.{IsTidy, set_clip_board-IsTidy}

-- The clipboard opens at the second attempt.
abbrev calls : List ℕ → Option Error → Calls
calls results set_error = record {
  open_results = results;
  open_error = eof;
  empty_error = none;
  encoded = inr (65 ∷ 0 ∷ []);
  alloc = inr 90;
  lock_error = none;
  copy_error = none;
  unlock_error = none;
  set_error = set_error;
  freed = true;
  closed = true;
}

abbrev clipboard : Clipboard
clipboard = record { is_open = false; closes = 0; content = 66 ∷ []; blocks = 8 ∷ [] }

set_run :
    set_clip_board (calls (0 ∷ 1 ∷ []) none) clipboard
    ≡ (none, record { is_open = false; closes = 1; content = 65 ∷ 0 ∷ []; blocks = 8 ∷ [] })
unfolding set_clip_board wait_open_clipboard wait_open after_open with_text with_block set_data
    free_block
set_run = refl

refused_run : (set_clip_board (calls (0 ∷ 0 ∷ []) none) clipboard).0 ≡ some eof
unfolding set_clip_board wait_open_clipboard wait_open after_open with_text with_block set_data
    free_block
refused_run = refl

failed-IsTidy :
    IsTidy
      (calls (1 ∷ []) (some eof))
      clipboard
      (set_clip_board (calls (1 ∷ []) (some eof)) clipboard)
failed-IsTidy = set_clip_board-IsTidy (calls (1 ∷ []) (some eof)) clipboard
