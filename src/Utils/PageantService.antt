-- ===== src/Utils/PageantService.antt =====
-- utils/pageant.go with app/pageant.go: the thread of the window, which sends a request over a channel
-- without a buffer and waits for the response; AcceptCtx in the loop of (*Pageant).Run; and the handlers
-- with their connections, whose first Close sends the response. Each connection is that of Utils/Mmap.
pub mod Exchanges
pub mod Replies
pub mod Late
mod Tests
use keybridge.Base.{ℕ, ◌≡◌, List, [], ◌∷◌, ◌++◌, Bool, true, false, length}
use keybridge.Utils.Mmap.{Response, MemoryMapConn, new_conn}
use keybridge.Utils.Mmap.Session.{Call, closes, step}

-- Where the thread of the window stands: outside wndProc's end, at `s.requestCh <- request{data, ch}`, and at
-- `resp := <-ch`, for the connection with this number.
pub data Window : Type 0 where
  idle : Window
  offering : List ℕ → Window
  awaiting : List ℕ → ℕ → Window

-- `conns` are the connections that AcceptCtx has made, and `replies` the responses that wndProc has received,
-- each with its request, oldest first.
pub record Service : Type 0 where
  pub window : Window
  pub accepting : Bool
  pub cancelled : Bool
  pub conns : List MemoryMapConn
  pub replies : List (List ℕ × Response)

abbrev pub service_first : Service
service_first = record {
  window = idle;
  accepting = true;
  cancelled = false;
  conns = [];
  replies = [];
}

-- A step of the window's thread, of the accept loop or of a handler: a message with a request that passes
-- wndProc's checks, its receive by AcceptCtx, a call that does not close, the first Close with its response. The send of a Close and the receive of
-- wndProc are one step, as are the send of the request and its receive in AcceptCtx.
pub data Step (s t : Service) : Type 0 where
  message : (req : List ℕ) → s.window ≡ idle → t ≡ record s { window = offering req } → Step s t
  accepted :
      (req : List ℕ)
      → s.window ≡ offering req
      → s.accepting ≡ true
      → t
        ≡ record s { window = awaiting req (length s.conns); conns = s.conns ++ new_conn req ∷ [] }
      → Step s t
  called :
      (before behind : List MemoryMapConn) (c : MemoryMapConn) (call : Call)
      → s.conns ≡ before ++ c ∷ behind
      → (step call c).closed ≡ c.closed
      → t ≡ record s { conns = before ++ step call c ∷ behind }
      → Step s t
  answered :
      (before behind : List MemoryMapConn) (c : MemoryMapConn) (req : List ℕ) (r : Response)
      → s.conns ≡ before ++ c ∷ behind
      → c.closed ≡ false
      → (step closes c).responses ≡ c.responses ++ r ∷ []
      → s.window ≡ awaiting req (length before)
      → t ≡ record s {
        window = idle;
        conns = before ++ step closes c ∷ behind;
        replies = s.replies ++ (req, r) ∷ [];
      }
      → Step s t
  cancel : t ≡ record s { cancelled = true } → Step s t
  stopped : s.accepting ≡ true → s.cancelled ≡ true → t ≡ record s { accepting = false } → Step s t

-- Any interleaving of them.
pub data Reach (s : Service) : Service → Type 0 where
  here : Reach s s
  next : {t u : Service} → Reach s t → Step t u → Reach s u
