-- ===== src/Utils/Clipboard.antt =====
-- utils/clipboard.go: putting a text into the clipboard. The results of the Windows procedures are parameters.
pub mod Blocks
mod Tests
use keybridge.Base.{
  ℕ, suc, List, [], ◌∷◌, Bool, true, false, Option, none, some, ◌⊎◌, inl, inr, ◌==◌, if◌then◌else◌,
}
use keybridge.Base.Outcome.{Error}

-- What the procedures return: OpenClipboard at each attempt within the second that the code waits, with the
-- error of the last one; then whether each of the others fails, with its error. `freed` and
-- `closed` are whether GlobalFree and CloseClipboard succeed, which the code does not look at. `unlock_error` is what
-- GlobalUnlock leaves when it returns 0, which is an error only if its number is not 0.
pub record Calls : Type 0 where
  pub open_results : List ℕ
  pub open_error : Error
  pub empty_error : Option Error
  pub encoded : Error ⊎ List ℕ
  pub alloc : Error ⊎ ℕ
  pub lock_error : Option Error
  pub copy_error : Option Error
  pub unlock_error : Option Error
  pub set_error : Option Error
  pub freed : Bool
  pub closed : Bool

-- The clipboard of the desktop: whether this process has it open, what it holds, and the calls of
-- CloseClipboard; and the memory of this process.
pub record Clipboard : Type 0 where
  pub is_open : Bool
  pub closes : ℕ
  pub content : List ℕ
  pub blocks : List ℕ

-- The loop of `waitOpenClipboard`: whether it was opened, and the error, which is nil if no attempt was made.
pub wait_open : Calls → List ℕ → Option Error → Option Error × Bool
wait_open calls [] last = (last, false)
wait_open calls (r ∷ results) last =
    let rest = wait_open calls results (some calls.open_error) in
    if r == 0 then rest else (none, true)

pub wait_open_clipboard : Calls → Clipboard → Option Error × Clipboard
unfolding wait_open
wait_open_clipboard calls c =
    let (e, opened) = wait_open calls calls.open_results none in (e, record c { is_open = opened })

-- The deferred `globalFree.Call(h)`, unless `h` was reset.
free_block : ℕ → List ℕ → List ℕ
free_block h [] = []
free_block h (b ∷ bs) = let rest = free_block h bs in if b == h then bs else b ∷ rest

-- A step that may fail, and the rest.
abbrev or_then :
    Option Error → (Clipboard → Option Error × Clipboard) → Clipboard → Option Error × Clipboard
or_then none rest c = rest c
or_then (some e) rest c = (some e, c)

-- `setClipboardData.Call`, which takes the memory over when it succeeds.
set_data : Calls → ℕ → List ℕ → Clipboard → Option Error × Clipboard
unfolding free_block
set_data calls h units =
    or_then calls.set_error
      λ c. (none, record c { content = units; blocks = free_block h c.blocks })

-- The deferred function that frees the memory when there is an error.
abbrev freeing : Calls → ℕ → Option Error × Clipboard → Option Error × Clipboard
freeing calls h (none, c) = (none, c)
freeing calls h (some e, c) =
    (some e, if calls.freed then record c { blocks = free_block h c.blocks } else c)

with_block : Calls → List ℕ → Error ⊎ ℕ → Clipboard → Option Error × Clipboard
unfolding free_block set_data
with_block calls units (inl e) c = (some e, c)
with_block calls units (inr h) c = freeing calls h (
    or_then calls.lock_error
      (or_then calls.copy_error (or_then calls.unlock_error (set_data calls h units)))
      (record c { blocks = h ∷ c.blocks }))

with_text : Calls → Error ⊎ List ℕ → Clipboard → Option Error × Clipboard
unfolding with_block
with_text calls (inl e) c = (some e, c)
with_text calls (inr units) c = with_block calls units calls.alloc c

-- The deferred `closeClipboard.Call()`
abbrev closing : Calls → Option Error × Clipboard → Option Error × Clipboard
closing calls (e, c) =
    let c' = record c { closes = suc c.closes } in
    (e, if calls.closed then record c' { is_open = false } else c')

after_open : Calls → Option Error → Clipboard → Option Error × Clipboard
unfolding with_text
after_open calls (some e) c = (some e, c)
after_open calls none c =
    closing calls
      (or_then calls.empty_error (λ c. with_text calls calls.encoded (record c { content = [] })) c)

-- `SetClipBoard`
pub set_clip_board : Calls → Clipboard → Option Error × Clipboard
unfolding wait_open_clipboard after_open
set_clip_board calls c = let (e, c') = wait_open_clipboard calls c in after_open calls e c'
