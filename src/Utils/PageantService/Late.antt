-- ===== src/Utils/PageantService/Late.antt =====
-- A client that comes when the accept loop has ended.
use keybridge.Base.{ℕ, ◌≡◌, refl, ◌∙◌, List, false, arith}
use keybridge.Utils.PageantService.{
  offering, Service, Step, message, accepted, called, answered, cancel, stopped, Reach, here, next,
}

Step-stuck :
    (s t : Service) (req : List ℕ)
    → s.window ≡ offering req
    → s.accepting ≡ false
    → Step s t
    → (t.window ≡ offering req) × (t.accepting ≡ false) × (t.replies ≡ s.replies)
Step-stuck s t req at off (message other idle_now e) = absurd (ground arith)
Step-stuck s t req at off (accepted other asked on e) = absurd (ground arith)
Step-stuck s t req at off (called before behind c call split kept e) = ground arith
Step-stuck s t req at off (answered before behind c other r split is_open sent waits e) =
    absurd (ground arith)
Step-stuck s t req at off (cancel e) = ground arith
Step-stuck s t req at off (stopped on told e) = absurd (ground arith)

-- A request that wndProc hands over when the accept loop has ended is never taken: in every further
-- interleaving wndProc stands there, with no response.
pub late_request_stuck :
    (s t : Service) (req : List ℕ)
    → s.window ≡ offering req
    → s.accepting ≡ false
    → Reach s t
    → (t.window ≡ offering req) × (t.accepting ≡ false) × (t.replies ≡ s.replies)
late_request_stuck s t req at off here = (at, off, refl)
late_request_stuck s t req at off (next {t = m} r st) =
    let (at', off', same) = late_request_stuck s m req at off r in
    let (at2, off2, same2) = Step-stuck m t req at' off' st in (at2, off2, same2 ∙ same)
