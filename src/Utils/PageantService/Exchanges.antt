-- ===== src/Utils/PageantService/Exchanges.antt =====
-- The connections, and the responses that wndProc has received.
use keybridge.Base.{
  ℕ, ◌≡◌, refl, ap, sym, ◌∙◌, subst, List, [], ◌∷◌, ◌++◌, map, map-append, Bool, true, false, arith,
  All, All-append, All-split, length, ◌⊎◌, inl, inr,
}
use keybridge.Utils.Mmap.{Response, MemoryMapConn, new_conn}
use keybridge.Utils.Mmap.Session.{
  Call, closes, step, answer, exchange, step-request, step-closed, step-closes, new_conn-open,
  response-answer,
}
use keybridge.Utils.PageantService.{
  Window, idle, offering, awaiting, Service, Step, message, accepted, called, answered, cancel,
  stopped,
}

abbrev pub IsClosed : MemoryMapConn → Type 0
IsClosed c = c.closed ≡ true

-- The connections while the window's thread waits: one is open, the last one, made of its request.
pub record IsAwaited (conns : List MemoryMapConn) (replies : List (List ℕ × Response))
    (req : List ℕ) (number : ℕ) : Type 0 where
  pub older : List MemoryMapConn
  pub open_one : MemoryMapConn
  pub split : conns ≡ older ++ open_one ∷ []
  pub all_closed : All IsClosed older
  pub is_open : open_one.closed ≡ false
  pub of_request : open_one.request ≡ req
  pub numbered : length older ≡ number
  pub got : replies ≡ map exchange older

-- With no connection that is open, the replies are those of the connections, in their order.
abbrev pub AllAnswered : List MemoryMapConn → List (List ℕ × Response) → Type 0
AllAnswered conns replies = All IsClosed conns × (replies ≡ map exchange conns)

abbrev pub Stands : Window → Service → Type 0
Stands idle s = AllAnswered s.conns s.replies
Stands (offering req) s = AllAnswered s.conns s.replies
Stands (awaiting req n) s = IsAwaited s.conns s.replies req n

-- Where a list with an element in the middle ends in another element, that one is the middle or before it.
last_or_before :
    (older before behind : List MemoryMapConn) (x c : MemoryMapConn)
    → older ++ x ∷ [] ≡ before ++ c ∷ behind
    → ((older ≡ before) × (x ≡ c) × (behind ≡ []))
      ⊎ ((mid : List MemoryMapConn) × (behind ≡ mid ++ x ∷ []) × (older ≡ before ++ c ∷ mid))
last_or_before [] [] behind x c e = inl (refl, cc, cc)
last_or_before [] (b ∷ []) behind x c e = absurd (ground (arith, e))
last_or_before [] (b ∷ b2 ∷ before) behind x c e = absurd (ground (arith, e))
last_or_before (o ∷ older) [] behind x c e =
    let head : o ≡ c = cc in
    let tail : older ++ x ∷ [] ≡ behind = cc in
    inr (older, sym tail, ap (λ (h : MemoryMapConn). h ∷ older) head)
last_or_before (o ∷ older) (b ∷ before) behind x c e =
    let head : o ≡ b = cc in
    let tail : older ++ x ∷ [] ≡ before ++ c ∷ behind = cc in
    elim (last_or_before older before behind x c tail) [
      | inl (p, q, r) ↦ inl (ap (λ l. o ∷ l) p ∙ ap (λ h. h ∷ before) head, q, r)
      | inr (mid, p, q) ↦ inr (mid, p, ap (λ l. o ∷ l) q ∙ ap (λ h. h ∷ (before ++ c ∷ mid)) head)
    ]

-- The connection that is open is the last one, the one waited for.
pub open_last :
    (s : Service) (before behind : List MemoryMapConn) (c : MemoryMapConn) (req : List ℕ) (n : ℕ)
    → s.conns ≡ before ++ c ∷ behind
    → (i : IsAwaited s.conns s.replies req n)
    → ((i.older ≡ before) × (i.open_one ≡ c) × (behind ≡ [])) ⊎ IsClosed c
open_last s before behind c req n split i =
    elim (last_or_before i.older before behind i.open_one c (sym i.split ∙ split)) [
      | inl same ↦ inl same
      | inr (mid, rest, e) ↦
          inr (All-split IsClosed before (c ∷ mid) (subst (All IsClosed) e i.all_closed)).1.0
    ]

-- A call that changes nothing of what the service stands for.
unchanged :
    (s : Service) (before behind : List MemoryMapConn) (c : MemoryMapConn) (call : Call)
    → s.conns ≡ before ++ c ∷ behind
    → IsClosed c
    → Stands s.window s
    → Stands s.window (record s { conns = before ++ step call c ∷ behind })
unchanged s before behind c call split is_closed i =
    let same : s.conns ≡ before ++ step call c ∷ behind =
      split ∙ ap (λ d. before ++ d ∷ behind) (sym (step-closed call c is_closed)) in
    subst (λ l. Stands s.window (record s { conns = l })) same i

module _ (s : Service) (before behind : List MemoryMapConn) (c : MemoryMapConn) (call : Call)
    (split : s.conns ≡ before ++ c ∷ behind) where
  among_closed :
      All IsClosed s.conns
      → Stands s.window s
      → Stands s.window (record s { conns = before ++ step call c ∷ behind })
  among_closed all i =
      unchanged s before behind c call split
        (All-split IsClosed before (c ∷ behind) (subst (All IsClosed) split all)).1.0 i

  -- A call on the connection that is waited for.
  called-Stands :
      (x : Window)
      → s.window ≡ x
      → (step call c).closed ≡ c.closed
      → Stands s.window s
      → Stands s.window (record s { conns = before ++ step call c ∷ behind })
  called-Stands idle at kept i = among_closed (subst (λ y. Stands y s) at i).0 i
  called-Stands (offering req) at kept i = among_closed (subst (λ y. Stands y s) at i).0 i
  called-Stands (awaiting req n) at kept i =
      let a : IsAwaited s.conns s.replies req n = subst (λ y. Stands y s) at i in
      elim (open_last s before behind c req n split a) [
        | inr is_closed ↦ unchanged s before behind c call split is_closed i
        | inl (same, it, none_behind) ↦
            let t : Service = record s { conns = before ++ step call c ∷ behind } in
            let awaited : IsAwaited t.conns t.replies req n = record {
              older = before;
              open_one = step call c;
              split = ap (λ l. before ++ step call c ∷ l) none_behind;
              all_closed = subst (All IsClosed) same a.all_closed;
              is_open = kept ∙ ap (λ (d : MemoryMapConn). d.closed) (sym it) ∙ a.is_open;
              of_request =
                  step-request call c
                  ∙ ap (λ (d : MemoryMapConn). d.request) (sym it)
                  ∙ a.of_request;
              numbered = ap (length {0}) (sym same) ∙ a.numbered;
              got = a.got ∙ ap (map exchange) same;
            } in
            subst (λ y. Stands y t) (sym at) awaited
      ]

-- The first Close of the connection that is waited for.
answered-Stands :
    (s : Service) (before behind : List MemoryMapConn) (c : MemoryMapConn) (req : List ℕ)
    → s.conns ≡ before ++ c ∷ behind
    → c.closed ≡ false
    → IsAwaited s.conns s.replies req (length before)
    → AllAnswered (before ++ step closes c ∷ behind) (s.replies ++ (req, answer c.w) ∷ [])
answered-Stands s before behind c req split is_open a =
    elim (open_last s before behind c req (length before) split a) [
      | inr is_closed ↦ absurd (ground arith)
      | inl (same, it, none_behind) ↦
          let (closed_now, exchanged) = step-closes c is_open in
          let asked : c.request ≡ req =
            ap (λ (d : MemoryMapConn). d.request) (sym it) ∙ a.of_request in
          let pair : ◌≡◌ {A = List ℕ × Response} (req, answer c.w) (exchange (step closes c)) =
            ap (λ r. (r, answer c.w)) (sym asked) ∙ sym exchanged in
          let now : s.replies ++ (req, answer c.w) ∷ []
              ≡ map exchange (before ++ step closes c ∷ []) =
            ap (λ l. l ++ (req, answer c.w) ∷ []) (a.got ∙ ap (map exchange) same)
            ∙ ap (λ p. map exchange before ++ p ∷ []) pair
            ∙ sym (map-append exchange before (step closes c ∷ [])) in
          subst
            (λ l. AllAnswered (before ++ step closes c ∷ l) (s.replies ++ (req, answer c.w) ∷ []))
            (sym none_behind)
            (
              All-append IsClosed before (step closes c ∷ [])
                  (subst (All IsClosed) same a.all_closed) (closed_now, tt),
              now,
            )
    ]

Stands-flags :
    (x : Window) (s : Service) (accepting cancelled : Bool)
    → Stands x s
    → Stands x (record s { accepting = accepting; cancelled = cancelled })
Stands-flags idle s accepting cancelled i = i
Stands-flags (offering req) s accepting cancelled i = i
Stands-flags (awaiting req n) s accepting cancelled i = i

pub Step-Stands : (s t : Service) → Step s t → Stands s.window s → Stands t.window t
Step-Stands s t (message req at e) i =
    subst (λ (u : Service). Stands u.window u) (sym e) (subst (λ y. Stands y s) at i)
Step-Stands s t (accepted req at on e) i =
    let (all, got) = subst (λ y. Stands y s) at i in
    subst (λ (u : Service). Stands u.window u) (sym e)
      (record {
        older = s.conns;
        open_one = new_conn req;
        split = refl;
        all_closed = all;
        is_open = (new_conn-open req).0;
        of_request = (new_conn-open req).1;
        numbered = refl;
        got = got;
      })
Step-Stands s t (called before behind c call split kept e) i =
    subst (λ (u : Service). Stands u.window u) (sym e)
      (called-Stands s before behind c call split s.window refl kept i)
Step-Stands s t (answered before behind c req r split is_open sent at e) i =
    subst (λ (u : Service). Stands u.window u) (sym e)
      (subst (λ q. AllAnswered (before ++ step closes c ∷ behind) (s.replies ++ (req, q) ∷ []))
        (sym (response-answer c r is_open sent))
        (answered-Stands s before behind c req split is_open (subst (λ y. Stands y s) at i)))
Step-Stands s t (cancel e) i =
    subst (λ (u : Service). Stands u.window u) (sym e) (Stands-flags s.window s s.accepting true i)
Step-Stands s t (stopped on told e) i =
    subst (λ (u : Service). Stands u.window u) (sym e) (Stands-flags s.window s false s.cancelled i)
