-- ===== src/Utils/PageantService/Replies.antt =====
-- What Pageant's clients get, and that a handler can always give it.
use keybridge.Base.{
  ◌≡◌, refl, ap, sym, ◌∙◌, subst, List, [], ◌∷◌, ◌++◌, false, arith, All, All-split, length, inl,
  inr,
}
use keybridge.Utils.Mmap.{MemoryMapConn}
use keybridge.Utils.Mmap.Session.{answer, exchange, step-closes_response}
use keybridge.Utils.PageantService.{
  Window, idle, offering, awaiting, Service, service_first, Step, answered, Reach, here, next,
}
use keybridge.Utils.PageantService.Exchanges.{IsClosed, Stands, open_last, Step-Stands}

-- In every interleaving of the window's thread, the accept loop and the handlers: the responses that wndProc
-- has received are those of the connections that are closed, in the order in which these were made, each by
-- what was written to the connection of its own request. While wndProc waits for a response exactly one
-- connection is open, the newest, made of the request it waits for; else none is.
pub Reach-Stands : (t : Service) → Reach service_first t → Stands t.window t
Reach-Stands t here = (tt, refl)
Reach-Stands t (next {t = s} r st) = Step-Stands s t st (Reach-Stands s r)

awaited_by :
    (t : Service) (x : Window) (before behind : List MemoryMapConn) (c : MemoryMapConn)
    → t.conns ≡ before ++ c ∷ behind
    → c.closed ≡ false
    → Stands x t
    → x ≡ awaiting c.request (length before)
awaited_by t idle before behind c split is_open i =
    let closed = (All-split IsClosed before (c ∷ behind) (subst (All IsClosed) split i.0)).1.0 in
    absurd (ground arith)
awaited_by t (offering req) before behind c split is_open i =
    let closed = (All-split IsClosed before (c ∷ behind) (subst (All IsClosed) split i.0)).1.0 in
    absurd (ground arith)
awaited_by t (awaiting req n) before behind c split is_open i =
    elim (open_last t before behind c req n split i) [
      | inr closed ↦ absurd (ground arith)
      | inl (same, it, none_behind) ↦
          let asked : req ≡ c.request =
            sym i.of_request ∙ ap (λ (d : MemoryMapConn). d.request) it in
          let numbered : n ≡ length before = sym i.numbered ∙ ap (length {0}) same in
          ap (λ r. awaiting r n) asked ∙ ap (awaiting c.request) numbered
    ]

-- A handler's first Close never waits: whenever a connection is open, wndProc is waiting for the response of
-- this one, so that the connection can be closed at once, and wndProc then has the response.
pub open-CanAnswer :
    (t : Service) (before behind : List MemoryMapConn) (c : MemoryMapConn)
    → Reach service_first t
    → t.conns ≡ before ++ c ∷ behind
    → c.closed ≡ false
    → (u : Service) × Step t u × (u.window ≡ idle) × (u.replies ≡ t.replies ++ exchange c ∷ [])
open-CanAnswer t before behind c r split is_open = (
  _,
  answered before behind c c.request (answer c.w) split is_open (step-closes_response c is_open)
      (awaited_by t t.window before behind c split is_open (Reach-Stands t r)) refl,
  refl,
  refl,
)
