-- ===== src/Utils/Mmap/Tests.antt =====
-- Runs and instances of the theorems about utils/mmap.go.
use keybridge.Base.{◌≡◌, refl, [], ◌∷◌}
use keybridge.Base.Outcome.{ok}
use keybridge.Utils.Mmap.{new_conn, read}

read_run : (read 2 (new_conn (1 ∷ 2 ∷ 3 ∷ []))).0 ≡ ok (1 ∷ 2 ∷ [])
unfolding read new_conn
read_run = refl
