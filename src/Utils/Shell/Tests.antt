-- ===== src/Utils/Shell/Tests.antt =====
-- Runs of utils/uac.go and utils/deadline.go.
use keybridge.Base.{◌≡◌, refl, [], ◌∷◌, none}
use keybridge.Utils.Shell.{Self, join, other, run_me_elevated, set_listener_deadline}

abbrev self : Self
self = record { executable = "keybridge.exe"; cwd = "C:\\"; args = "keybridge" ∷ "-i" ∷ "-x" ∷ [] }

elevated_run :
    (run_me_elevated self none []).1
    ≡ record { verb = "runas"; exe = "keybridge.exe"; args = "-i -x"; cwd = "C:\\"; show = 1 } ∷ []
unfolding run_me_elevated join
elevated_run = refl

-- A listener of another kind has no deadline, and that is no error.
deadline_run : set_listener_deadline (λ l. none) (other 3) 9 [] ≡ (none, [])
unfolding set_listener_deadline
deadline_run = refl
