-- ===== src/Utils/MessageBox/Tests.antt =====
-- Runs of utils/notification.go.
use keybridge.Base.{◌≡◌, refl, true, false, [], ◌∷◌}
use keybridge.Utils.MessageBox.{pos, negsuc, message_box, mb_okcancel, id_ok}

confirmed_run :
    message_box (λ text. true) (λ boxes box. id_ok) "Error:" "e" mb_okcancel []
    ≡ (pos 1, record { title = "Error:"; text = "e"; style = mb_okcancel } ∷ [])
unfolding message_box
confirmed_run = refl

refused_run :
    message_box (λ text. false) (λ boxes box. id_ok) "Error:" "e" mb_okcancel [] ≡ (negsuc 0, [])
unfolding message_box
refused_run = refl
