-- ===== src/Utils/Pageant/Written.antt =====
-- The whole way of a request: the window procedure, the connection that carries it, and the calls of the
-- handler that has the connection.
use keybridge.Base.{
  ℕ, suc, ◌<◌, ◌≤◌, ◌≡◌, ◌≢◌, ◌↔◌, refl, ap, sym, ◌∙◌, List, [], ◌∷◌, ◌++◌, append_assoc,
  append-nil, true, false, inl, inr, ltb, ◌==◌, length, take, drop, le→ltb_false, arith, Bool-cases,
}
use keybridge.Base.Outcome.{Result, ok, err, panic}
use keybridge.Utils.Mmap.{Response, replied, new_conn}
use keybridge.Utils.Mmap.Session.{Call, reads, writes, closes, run, answer, answers, run-responses}
use keybridge.Utils.Pageant.{
  Answers, Desk, wnd_proc, check_owner, with_mapping, with_view, ask_agent, give_answer,
}
use keybridge.Utils.Pageant.{deferred, unmap, close_mapping}
use keybridge.Utils.Pageant.Guards.{OwnerAdmitted, asked, answered, wnd_proc-Handled}

-- What the calls before the first Close write, in their order.
abbrev pub written : List Call → List ℕ
written [] = []
written (reads n ∷ cs) = written cs
written (writes p ∷ cs) = p ++ written cs
written (closes ∷ cs) = []

answers-written :
    (w : List ℕ) (cs : List Call) (r : Response)
    → answers w cs ≡ r ∷ []
    → r ≡ answer (w ++ written cs)
answers-written w [] r h = absurd (ground (arith, h))
answers-written w (reads n ∷ cs) r h = answers-written w cs r h
answers-written w (writes p ∷ cs) r h =
    answers-written (w ++ p) cs r h ∙ ap answer (append_assoc w p (written cs))
answers-written w (closes ∷ cs) r h =
    let sent : answer w ≡ r = cc in sym sent ∙ ap answer (sym (append-nil w))

-- What wndProc receives for a request, from a handler that makes these calls.
pub response-written :
    (request : List ℕ) (cs : List Call) (r : Response)
    → (run cs (new_conn request)).responses ≡ r ∷ []
    → r ≡ answer (written cs)
response-written request cs r h = answers-written [] cs r (sym (run-responses request cs) ∙ h)

-- What must hold for a request to come to the agent.
pub record Passes (a : Answers) (dw_data : ℕ) (d : Desk) : Type 0 where
  pub identified : dw_data ≡ 0x804e50ba
  pub mapped : a.file_mapping ≢ 0
  pub admitted : OwnerAdmitted a
  pub viewed : a.view_error ≡ false
  pub header : 4 ≤ length d.memory
  pub short : asked d.memory ≤ 8192
  pub within : asked d.memory ≤ length d.memory

-- The reply is in the memory's start, and 1 is returned.
abbrev pub Replied : List ℕ → Desk → Result ℕ × Desk → Type 0
Replied reply d r = (r.0 ≡ ok 1) × (r.1.memory ≡ reply ++ drop (length reply) d.memory)

-- The request is in the view.
abbrev pub InView : List ℕ → Type 0
InView memory = (4 ≤ length memory) × (asked memory ≤ 8192) × (asked memory ≤ length memory)

deferred-Replied :
    (reply : List ℕ) (d d' : Desk) (call : Desk → Desk) (r : Result ℕ × Desk)
    → d'.memory ≡ d.memory
    → ((e : Desk) → (call e).memory ≡ e.memory)
    → Replied reply d' r
    → Replied reply d (deferred call r)
deferred-Replied reply d d' call (ok l, e) taken kept (one, memory) =
    (one, kept e ∙ memory ∙ ap (λ m. reply ++ drop (length reply) m) taken)
deferred-Replied reply d d' call (err x, e) taken kept (one, memory) = absurd (ground (arith, one))
deferred-Replied reply d d' call (panic, e) taken kept (one, memory) = absurd (ground (arith, one))

deferred-same_value : (call : Desk → Desk) (r : Result ℕ × Desk) → (deferred call r).0 ≡ r.0
deferred-same_value call (ok l, e) = refl
deferred-same_value call (err x, e) = refl
deferred-same_value call (panic, e) = refl

module _ (a : Answers) (serve : List ℕ → Response) (reply : List ℕ)
    (fits : length reply ≤ 8192) where
  ask_agent-replied :
      (d : Desk)
      → InView d.memory
      → length reply ≤ length d.memory
      → serve (take (asked d.memory) d.memory) ≡ replied reply
      → Replied reply d (ask_agent serve d)
  unfolding ask_agent give_answer
  ask_agent-replied d (header, short, within) room e =
      rw
        (
          le→ltb_false (length d.memory) 4 header,
          le→ltb_false 8192 (asked d.memory) short,
          le→ltb_false (length d.memory) (asked d.memory) within,
          e,
          le→ltb_false 8192 (length reply) fits,
          le→ltb_false (length d.memory) (length reply) room,
        )
        (refl, refl)

  with_view-replied :
      (d : Desk)
      → a.view_error ≡ false
      → InView d.memory
      → length reply ≤ length d.memory
      → serve (take (asked d.memory) d.memory) ≡ replied reply
      → Replied reply d (with_view a serve d)
  unfolding with_view
  with_view-replied d viewed view room e = rw viewed (
      deferred-Replied reply d (record d { views = suc d.views }) unmap _ refl (λ e. refl)
        (ask_agent-replied (record d { views = suc d.views }) view room e))

  check_owner-replied :
      (d : Desk)
      → OwnerAdmitted a
      → a.view_error ≡ false
      → InView d.memory
      → length reply ≤ length d.memory
      → serve (take (asked d.memory) d.memory) ≡ replied reply
      → Replied reply d (check_owner a a.user_sid a.default_sid a.map_owner serve d)
  unfolding check_owner OwnerAdmitted
  check_owner-replied d (o, o2, ow, p, q, r, inl same) viewed view room e =
      rw (p, q, r, same) (with_view-replied d viewed view room e)
  check_owner-replied d (o, o2, ow, p, q, r, inr same) viewed view room e =
      elim (Bool-cases (a.equal_sid ow o)) [
        | inl b ↦ rw (p, q, r, b) (with_view-replied d viewed view room e)
        | inr b ↦ rw (p, q, r, b, same) (with_view-replied d viewed view room e)
      ]

  wnd_proc-replied :
      (dw_data : ℕ) (d : Desk)
      → Passes a dw_data d
      → length reply ≤ length d.memory
      → serve (take (asked d.memory) d.memory) ≡ replied reply
      → Replied reply d (wnd_proc a serve 0x004a dw_data d)
  unfolding wnd_proc with_mapping
  wnd_proc-replied dw_data d p room e =
      let mapped : a.file_mapping == 0 ≡ false = let m = p.mapped in ground (arith, m) in
      let d' = record d { mappings = suc d.mappings } in
      rw (p.identified, mapped)
        (deferred-Replied reply d d' close_mapping _ refl (λ e. refl)
          (check_owner-replied d' p.admitted p.viewed (p.header, p.short, p.within) room e))

module _ (a : Answers) (serve : List ℕ → Response) where
  unviewed-zero :
      (d : Desk)
      → OwnerAdmitted a
      → a.view_error ≡ true
      → (check_owner a a.user_sid a.default_sid a.map_owner serve d).0 ≡ ok 0
  unfolding check_owner with_view OwnerAdmitted
  unviewed-zero d (o, o2, ow, p, q, r, same) v = rw (p, q, r, v) (ground arith)

  unmapped-zero : (d : Desk) → a.file_mapping ≡ 0 → (wnd_proc a serve 0x004a 0x804e50ba d).0 ≡ ok 0
  unfolding wnd_proc with_mapping
  unmapped-zero d m = rw m refl

  unviewed_zero :
      (d : Desk)
      → OwnerAdmitted a
      → a.view_error ≡ true
      → (wnd_proc a serve 0x004a 0x804e50ba d).0 ≡ ok 0
  unfolding wnd_proc with_mapping
  unviewed_zero d o v = elim (Bool-cases (a.file_mapping == 0)) [
    | inl m ↦ rw m refl
    | inr m ↦ rw m (
        deferred-same_value close_mapping _
        ∙ unviewed-zero (record d { mappings = suc d.mappings }) o v)
  ]

  one-Passes :
      (dw_data : ℕ) (d : Desk)
      → (wnd_proc a serve 0x004a dw_data d).0 ≡ ok 1
      → Passes a dw_data d
        × ((ok 1, (wnd_proc a serve 0x004a dw_data d).1.memory)
            ≡ answered (serve (take (asked d.memory) d.memory)) d.memory)
  one-Passes dw_data d one = elim (wnd_proc-Handled a serve 0x004a dw_data d) [
    | inl (other, e) ↦ absurd (other refl)
    | inr (inl (m, e)) ↦ absurd (ground (arith, e, one))
    | inr (inr (m, i, inl f)) ↦ absurd (let p = f.faults in ground (arith, p, one))
    | inr (inr (m, i, inr s)) ↦
        let at : (wnd_proc a serve 0x004a 0x804e50ba d).0 ≡ ok 1 =
          ap (λ i. (wnd_proc a serve 0x004a i d).0) (sym i) ∙ one in
        (
          record {
            identified = i;
            mapped = λ m. absurd (ground (arith, unmapped-zero d m, at));
            admitted = s.admitted;
            viewed = elim (Bool-cases a.view_error) [
              | inl v ↦ absurd (ground (arith, unviewed_zero d s.admitted v, at))
              | inr v ↦ v
            ];
            header = s.header;
            short = s.short;
            within = s.within;
          },
          ap (λ l. (l, (wnd_proc a serve 0x004a dw_data d).1.memory)) (sym one) ∙ s.reply,
        )
  ]

answered-one :
    (w memory later : List ℕ)
    → (ok 1, later) ≡ answered (answer w) memory
    → (0 < length w)
      × (length w ≤ 8192)
      × (length w ≤ length memory)
      × (later ≡ w ++ drop (length w) memory)
answered-one [] memory later h = absurd (ground (arith, h))
answered-one (b ∷ w) memory later h = elim (Bool-cases (ltb 8192 (length (b ∷ w)))) [
  | inl long ↦ absurd (ground (arith, h, long))
  | inr fits ↦ elim (Bool-cases (ltb (length memory) (length (b ∷ w)))) [
    | inl beyond ↦ absurd (ground (arith, h, fits, beyond))
    | inr room ↦
        (omega arith, ground (arith, fits), ground (arith, room), ground (arith, h, fits, room))
  ]
]

answer-replied : (w : List ℕ) → 0 < length w → answer w ≡ replied w
answer-replied [] some_bytes = absurd (omega arith)
answer-replied (b ∷ w) some_bytes = ground arith

-- A message with a client's request, carried by a connection whose handler makes `calls` on it: wndProc returns
-- 1 exactly if the identifier is PuTTY's, there is a mapping owned by the user or by the owner of this process,
-- it can be viewed, the view has the length and the request, the length that it asks for is at most 8192, and
-- what the handler writes before its first Close, all writes in their order, is neither empty nor longer than
-- 8192 or than the view. This is then the reply in the client's memory, from its start, with the rest as it
-- was.
pub wnd_proc-written :
    (a : Answers) (serve : List ℕ → Response) (calls : List ℕ → List Call) (dw_data : ℕ) (d : Desk)
    → ((q : List ℕ) → (run (calls q) (new_conn q)).responses ≡ serve q ∷ [])
    → let r = wnd_proc a serve 0x004a dw_data d in
      let reply = written (calls (take (asked d.memory) d.memory)) in
      ((r.0 ≡ ok 1) ↔ (
        Passes a dw_data d
        × (0 < length reply)
        × (length reply ≤ 8192)
        × (length reply ≤ length d.memory)))
      × ((r.0 ≡ ok 1) → r.1.memory ≡ reply ++ drop (length reply) d.memory)
wnd_proc-written a serve calls dw_data d responds =
    let q = take (asked d.memory) d.memory in
    let reply = written (calls q) in
    let e : serve q ≡ answer reply = response-written q (calls q) (serve q) (responds q) in
    let of_one : (one : (wnd_proc a serve 0x004a dw_data d).0 ≡ ok 1)
        → (0 < length reply)
          × (length reply ≤ 8192)
          × (length reply ≤ length d.memory)
          × ((wnd_proc a serve 0x004a dw_data d).1.memory ≡ reply ++ drop (length reply) d.memory) =
      λ one.
        answered-one reply d.memory (wnd_proc a serve 0x004a dw_data d).1.memory
          ((one-Passes a serve dw_data d one).1 ∙ ap (λ r. answered r d.memory) e) in
    (
      (
        λ one.
            ((one-Passes a serve dw_data d one).0, (of_one one).0, (of_one one).1, (of_one one).2),
        λ (p, some_bytes, fits, room).
            (wnd_proc-replied a serve reply fits dw_data d p room
              (e ∙ answer-replied reply some_bytes)).0,
      ),
      λ one. (of_one one).3,
    )
