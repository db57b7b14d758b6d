-- ===== src/Utils/Clipboard/Blocks.antt =====
-- What putting a text into the clipboard leaves behind.
use keybridge.Base.{
  ℕ, ◌≡◌, refl, List, [], ◌∷◌, Bool, true, false, Option, none, some, ◌⊎◌, inl, inr, arith, ◌==◌,
  Bool-cases,
}
use keybridge.Base.Outcome.{Error}
use keybridge.Utils.Clipboard.{
  Calls, Clipboard, wait_open, wait_open_clipboard, free_block, set_data, with_block, with_text,
  after_open, set_clip_board,
}

-- What a call leaves: the memory of the process as it was, or with the block for the text, which GlobalFree did
-- not take back behind an error; a clipboard that is not open, unless CloseClipboard failed; and the text in
-- the clipboard exactly if there is no error.
pub record IsTidy (calls : Calls) (c : Clipboard) (r : Option Error × Clipboard) : Type 0 where
  pub blocks :
      (r.1.blocks ≡ c.blocks)
      ⊎ ((e : Error) × (h : ℕ) × (calls.freed ≡ false)
          × (r.0 ≡ some e)
          × (calls.alloc ≡ inr h)
          × (r.1.blocks ≡ h ∷ c.blocks))
  pub is_closed : (r.1.is_open ≡ false) ⊎ (calls.closed ≡ false)
  pub sets : r.0 ≡ none → (units : List ℕ) × (calls.encoded ≡ inr units) × (r.1.content ≡ units)
  pub keeps : (e : Error) → r.0 ≡ some e → (r.1.content ≡ c.content) ⊎ (r.1.content ≡ [])

free_block-first : (h : ℕ) (bs : List ℕ) → free_block h (h ∷ bs) ≡ bs
unfolding free_block
free_block-first h bs = ground arith

tidy :
    (os : List ℕ) (oe : Error) (ee : Option Error) (t : Error ⊎ List ℕ) (a : Error ⊎ ℕ)
    (l k u s last : Option Error) (freed closed : Bool) (c : Clipboard)
    → c.is_open ≡ false ⊎ (last ≡ none)
    → let calls : Calls = record {
      open_results = os;
      open_error = oe;
      empty_error = ee;
      encoded = t;
      alloc = a;
      lock_error = l;
      copy_error = k;
      unlock_error = u;
      set_error = s;
      freed = freed;
      closed = closed;
    } in
      IsTidy calls c (after_open calls last c)
unfolding after_open with_text with_block set_data
tidy os oe ee t a l k u s (some e) fr cl c o = ground arith
tidy os oe (some x) t a l k u s none fr true c o = ground arith
tidy os oe (some x) t a l k u s none fr false c o = ground arith
tidy os oe none (inl x) a l k u s none fr true c o = ground arith
tidy os oe none (inl x) a l k u s none fr false c o = ground arith
tidy os oe none (inr t) (inl x) l k u s none fr true c o = ground arith
tidy os oe none (inr t) (inl x) l k u s none fr false c o = ground arith
tidy os oe none (inr t) (inr h) (some x) k u s none true true c o =
    ground (arith, free_block-first h c.blocks)
tidy os oe none (inr t) (inr h) (some x) k u s none true false c o =
    ground (arith, free_block-first h c.blocks)
tidy os oe none (inr t) (inr h) (some x) k u s none false true c o = record {
  blocks = inr (x, h, refl, refl, refl, refl);
  is_closed = inl refl;
  sets = λ e. ground (arith, e);
  keeps = λ e same. inr refl;
}
tidy os oe none (inr t) (inr h) (some x) k u s none false false c o = record {
  blocks = inr (x, h, refl, refl, refl, refl);
  is_closed = inr refl;
  sets = λ e. ground (arith, e);
  keeps = λ e same. inr refl;
}
tidy os oe none (inr t) (inr h) none (some x) u s none true true c o =
    ground (arith, free_block-first h c.blocks)
tidy os oe none (inr t) (inr h) none (some x) u s none true false c o =
    ground (arith, free_block-first h c.blocks)
tidy os oe none (inr t) (inr h) none (some x) u s none false true c o = record {
  blocks = inr (x, h, refl, refl, refl, refl);
  is_closed = inl refl;
  sets = λ e. ground (arith, e);
  keeps = λ e same. inr refl;
}
tidy os oe none (inr t) (inr h) none (some x) u s none false false c o = record {
  blocks = inr (x, h, refl, refl, refl, refl);
  is_closed = inr refl;
  sets = λ e. ground (arith, e);
  keeps = λ e same. inr refl;
}
tidy os oe none (inr t) (inr h) none none (some x) s none true true c o =
    ground (arith, free_block-first h c.blocks)
tidy os oe none (inr t) (inr h) none none (some x) s none true false c o =
    ground (arith, free_block-first h c.blocks)
tidy os oe none (inr t) (inr h) none none (some x) s none false true c o = record {
  blocks = inr (x, h, refl, refl, refl, refl);
  is_closed = inl refl;
  sets = λ e. ground (arith, e);
  keeps = λ e same. inr refl;
}
tidy os oe none (inr t) (inr h) none none (some x) s none false false c o = record {
  blocks = inr (x, h, refl, refl, refl, refl);
  is_closed = inr refl;
  sets = λ e. ground (arith, e);
  keeps = λ e same. inr refl;
}
tidy os oe none (inr t) (inr h) none none none (some x) none true true c o =
    ground (arith, free_block-first h c.blocks)
tidy os oe none (inr t) (inr h) none none none (some x) none true false c o =
    ground (arith, free_block-first h c.blocks)
tidy os oe none (inr t) (inr h) none none none (some x) none false true c o = record {
  blocks = inr (x, h, refl, refl, refl, refl);
  is_closed = inl refl;
  sets = λ e. ground (arith, e);
  keeps = λ e same. inr refl;
}
tidy os oe none (inr t) (inr h) none none none (some x) none false false c o = record {
  blocks = inr (x, h, refl, refl, refl, refl);
  is_closed = inr refl;
  sets = λ e. ground (arith, e);
  keeps = λ e same. inr refl;
}
tidy os oe none (inr t) (inr h) none none none none none fr true c o =
    ground (arith, free_block-first h c.blocks)
tidy os oe none (inr t) (inr h) none none none none none fr false c o =
    ground (arith, free_block-first h c.blocks)

-- The clipboard is open behind the attempts exactly if one of them succeeded; otherwise there is an error,
-- unless there was no attempt.
abbrev Opened : Option Error × Bool → Type 0
Opened (e, true) = e ≡ none
Opened (e, false) = Unit {0}

wait_open-Opened :
    (calls : Calls) (results : List ℕ) (last : Option Error) → Opened (wait_open calls results last)
unfolding wait_open
wait_open-Opened calls [] last = tt
wait_open-Opened calls (r ∷ results) last = elim (Bool-cases (r == 0)) [
  | inl q ↦ rw q (wait_open-Opened calls results (some calls.open_error))
  | inr q ↦ rw q refl
]

of_opened :
    {calls : Calls} {c : Clipboard} {opened : Bool} {r : Option Error × Clipboard}
    → IsTidy calls (record c { is_open = opened }) r
    → IsTidy calls c r
of_opened i = record { blocks = i.blocks; is_closed = i.is_closed; sets = i.sets; keeps = i.keeps }

after_open-IsTidy :
    (calls : Calls) (c : Clipboard) (waited : Option Error × Bool)
    → Opened waited
    → IsTidy calls c (after_open calls waited.0 (record c { is_open = waited.1 }))
after_open-IsTidy calls c (e, true) o = of_opened (
    tidy calls.open_results calls.open_error calls.empty_error calls.encoded calls.alloc
      calls.lock_error calls.copy_error calls.unlock_error calls.set_error e calls.freed
      calls.closed (record c { is_open = true }) (inr o))
after_open-IsTidy calls c (e, false) o = of_opened (
    tidy calls.open_results calls.open_error calls.empty_error calls.encoded calls.alloc
      calls.lock_error calls.copy_error calls.unlock_error calls.set_error e calls.freed
      calls.closed (record c { is_open = false }) (inl refl))

-- However the Windows procedures answer: the process keeps none of the memory that it took for the text, whether
-- the clipboard has taken it over or a step behind the allocation failed, unless GlobalFree fails then; and
-- the clipboard is not open behind the call, unless CloseClipboard fails. If there is no error the clipboard
-- holds the encoded text; if there is one, it holds what it did before, or nothing.
pub set_clip_board-IsTidy :
    (calls : Calls) (c : Clipboard) → IsTidy calls c (set_clip_board calls c)
unfolding set_clip_board wait_open_clipboard
set_clip_board-IsTidy calls c =
    after_open-IsTidy calls c (wait_open calls calls.open_results none)
      (wait_open-Opened calls calls.open_results none)
