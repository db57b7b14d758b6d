-- ===== src/Utils/MessageBox.antt =====
-- utils/notification.go: the message box, by the arguments of MessageBoxW and what that answers. Whether a text
-- can be converted (UTF16PtrFromString refuses one with a NUL) and the answer are parameters.
mod Tests
use keybridge.Base.{
  ℕ, suc, ◌-◌, ◌^◌, ◌≡◌, ◌↔◌, String, List, [], ◌∷◌, ◌++◌, Bool, true, not, arith, if◌then◌else◌,
  ltb,
}

pub record Box : Type 0 where
  pub title : String
  pub text : String
  pub style : ℕ

abbrev pub mb_okcancel : ℕ
mb_okcancel = 1

abbrev pub mb_icon_warning : ℕ
mb_icon_warning = 0x30

abbrev pub mb_icon_error : ℕ
mb_icon_error = 0x10

abbrev pub mb_icon_information : ℕ
mb_icon_information = 0x40

abbrev pub id_ok : ℕ
id_ok = 1

-- A signed integer, `negsuc n` for -1 - n.
pub data ℤ : Type 0 where
  pos negsuc : ℕ → ℤ

-- `int(ret)` of a uintptr
unfoldable pub int_of : ℕ → ℤ
int_of r = if ltb r (2 ^ 63) then pos r else negsuc (2 ^ 64 - suc r)

-- `MessageBox`, by the boxes that were shown before: its result, and the boxes shown.
unfoldable pub message_box :
    (String → Bool) → (List Box → Box → ℕ) → String → String → ℕ → List Box → ℤ × List Box
unfolding int_of
message_box converts user title text style boxes =
    let box : Box = record { title = title; text = text; style = style } in
    if not (converts text)
    then (negsuc 0, boxes)
    else if not (converts title)
    then (negsuc 0, boxes)
    else (int_of (user boxes box), boxes ++ box ∷ [])

-- OK comes out of a box exactly if both texts can be converted and the user clicks OK; the box is then shown.
pub message_box-ok :
    (converts : String → Bool) (user : List Box → Box → ℕ) (title text : String) (style : ℕ)
    (boxes : List Box)
    → let box : Box = record { title = title; text = text; style = style } in
      let r = message_box converts user title text style boxes in
      (r.0 ≡ pos id_ok) ↔ (
        (converts text ≡ true)
        × (converts title ≡ true)
        × (user boxes box ≡ id_ok)
        × (r.1 ≡ boxes ++ box ∷ []))
unfolding message_box int_of
message_box-ok converts user title text style boxes =
    (λ h. ground arith, λ (a, b, c, d). ground arith)
