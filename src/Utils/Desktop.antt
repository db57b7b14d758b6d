-- ===== src/Utils/Desktop.antt =====
-- utils/notification.go: notifications, of which the desktop keeps a list.
use Prim.Native.String.{◌++◌ as str_append}
use keybridge.Base.{String, List, [], ◌∷◌, ◌++◌, Bool, true, if◌then◌else◌}

pub record Notification : Type 0 where
  pub title : String
  pub message : String

-- Whether `RegisterNotifier` was called with a notifier, and what it was given to show, oldest first.
pub record Desktop : Type 0 where
  pub has_notifier : Bool
  pub shown : List Notification

-- `RegisterNotifier`, given a notifier that is not nil
unfoldable pub register_notifier : Desktop → Desktop
register_notifier d = record d { has_notifier = true }

-- `Notify`
unfoldable pub notify : String → String → Desktop → Desktop
notify title message d =
    if d.has_notifier
    then record d { shown = d.shown ++ record { title = title; message = message } ∷ [] }
    else d

-- A message that quotes a name, as `"… <" + name + "…"`.
abbrev pub quote : String → String → String → String
quote before name behind = str_append before (str_append name behind)
