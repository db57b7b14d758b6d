-- ===== src/App/Clicks/Copies.antt =====
-- What a click can put into the clipboard, and when it starts the program as an administrator.
use keybridge.Base.{
  suc, ◌≡◌, String, List, [], ◌∷◌, ◌++◌, Bool, true, false, ◌⊎◌, inl, inr, ◌&&◌, Option, none, some,
  ◌==◌,
}
use keybridge.App.Clicks.{
  User, Apps, Screen, Handler, pub_key_view, wsl, vsock, vsock_check, cygwin, named_pipe,
  named_pipe_sc, enable_question,
}
use keybridge.Utils.MessageBox.{Box, id_ok}

abbrev pub lists : Option (String ⊎ List String) → Bool
lists none = false
lists (some (inl e)) = false
lists (some (inr keys)) = true

-- Whether the application of an item has something to offer: it runs, or the agent lists its keys.
abbrev pub is_working : Handler → Apps → Bool
is_working pub_key_view a = lists a.agent_keys
is_working wsl a = a.wsl_running
is_working vsock a = a.vsock_running
is_working vsock_check a = a.vsock_running
is_working cygwin a = a.cygwin_running
is_working named_pipe a = a.pipe_running
is_working named_pipe_sc a = a.pipe_running

-- Nothing was copied, or the text of the one box that was shown, to which the user has clicked OK.
abbrev pub Copies : User → Screen → Screen → Type 0
Copies user s t =
    (t.copied ≡ s.copied)
    ⊎ ((box : Box) × (t.boxes ≡ s.boxes ++ box ∷ [])
        × (user.answer s.boxes box == id_ok ≡ true)
        × (t.copied ≡ s.copied ++ box.text ∷ []))

-- The program was not started as an administrator, or the service is off and the user has agreed.
abbrev pub Elevates : User → Apps → Screen → Screen → Type 0
Elevates user a s t =
    (t.elevations ≡ s.elevations)
    ⊎ ((a.vsock_running ≡ false)
        × (a.hv_service ≡ false)
        × (user.answer s.boxes enable_question == id_ok ≡ true)
        × (t.elevations ≡ suc s.elevations)
        × (t.copied ≡ s.copied))

-- Whether both texts of a box can be converted.
abbrev pub is_readable : User → Box → Bool
is_readable user box = user.converts box.text && user.converts box.title

-- What a click may change, for an item that works or does not.
pub record IsAgreed (user : User) (a : Apps) (works : Bool) (s t : Screen) : Type 0 where
  pub copies : Copies user s t
  pub elevates : Elevates user a s t
  pub shows :
      ((box : Box) × (more : List Box) × (t.boxes ≡ s.boxes ++ box ∷ more))
      ⊎ ((box : Box) × (is_readable user box ≡ false) × (t ≡ s))
  pub needs : works ≡ false → t.copied ≡ s.copied

-- What came of a box: it was not shown, which is no agreement; or it was, and if this was an agreement, the
-- user has clicked OK.
data Asked (user : User) (box : Box) (s : Screen) (r : Bool × Screen) : Type 0 where
  hidden : is_readable user box ≡ false → r ≡ (false, s) → Asked user box s r
  shown :
      r.1 ≡ record s { boxes = s.boxes ++ box ∷ [] }
      → (r.0 ≡ true → user.answer s.boxes box == id_ok ≡ true)
      → Asked user box s r

-- What a click comes to: a panic, if the agent is not set, or its changes.
abbrev pub Clicked : Handler → User → Apps → Screen → Option Screen → Type 0
Clicked h user a s none = (h ≡ pub_key_view) × (a.agent_keys ≡ none)
Clicked h user a s (some t) = IsAgreed user a (is_working h a) s t
