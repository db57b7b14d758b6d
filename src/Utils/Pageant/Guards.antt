-- ===== src/Utils/Pageant/Guards.antt =====
-- What gets a request past the window procedure, and what it leaves behind.
use keybridge.Base.{
  ◌<◌, ℕ, suc, ◌+◌, ◌-◌, ◌≤◌, ◌≡◌, ◌≢◌, refl, ap, List, [], ◌∷◌, ◌++◌, true, ◌⊎◌, inl, inr, ltb,
  ◌==◌, if_either, subst, sym, ◌∙◌, if◌then◌else◌, length, take, drop, arith, Bool-cases,
}
use keybridge.Base.Outcome.{Error, Result, ok, err, panic}
use keybridge.Base.Bytes.{u32, big_endian}
use keybridge.Utils.Mmap.{Response, replied, failed}
use keybridge.Utils.Pageant.{
  Answers, Desk, deferred, unmap, close_mapping, wnd_proc, check_owner, with_mapping, with_view,
  ask_agent, give_answer,
}

-- The owner of a mapping, as the security check reads it, is one of two identifiers.
unfoldable pub OwnerAdmitted : Answers → Type 0
OwnerAdmitted a =
    (o o2 ow : ℕ) × (a.user_sid ≡ inr o)
    × (a.default_sid ≡ inr o2)
    × (a.map_owner ≡ inr ow)
    × ((a.equal_sid ow o ≡ true) ⊎ (a.equal_sid ow o2 ≡ true))

check_owner-admitted :
    (a : Answers) (u u2 w : Error ⊎ ℕ) (serve : List ℕ → Response) (d : Desk)
    → (a.user_sid ≡ u)
    → (a.default_sid ≡ u2)
    → (a.map_owner ≡ w)
    → (check_owner a u u2 w serve d ≡ (ok 0, d))
      ⊎ (OwnerAdmitted a × (check_owner a u u2 w serve d ≡ with_view a serve d))
unfolding check_owner OwnerAdmitted
check_owner-admitted a (inl e) u2 w serve d p q r = inl refl
check_owner-admitted a (inr o) (inl e) w serve d p q r = inl refl
check_owner-admitted a (inr o) (inr o2) (inl e) serve d p q r = inl refl
check_owner-admitted a (inr o) (inr o2) (inr ow) serve d p q r =
    elim (Bool-cases (a.equal_sid ow o)) [
      | inl e ↦ inr ((o, o2, ow, p, q, r, inl e), rw e refl)
      | inr e ↦ elim (Bool-cases (a.equal_sid ow o2)) [
        | inl e2 ↦ inr ((o, o2, ow, p, q, r, inr e2), rw (e, e2) refl)
        | inr e2 ↦ inl (rw (e, e2) refl)
      ]
    ]

-- The length of the request that the memory asks for, header included.
abbrev pub asked : List ℕ → ℕ
asked memory = u32 (big_endian memory + 4)

-- What the answer does to a memory, and the value returned; it faults where the memory is too short for it.
abbrev pub answered : Response → List ℕ → Result ℕ × List ℕ
answered (failed e) memory = (ok 0, memory)
answered (replied reply) memory =
    if ltb 8192 (length reply)
    then (ok 0, memory)
    else if ltb (length memory) (length reply)
    then (panic, memory)
    else (ok 1, reply ++ drop (length reply) memory)

-- One request was handed over, which the view has, and answered.
pub record Served (a : Answers) (serve : List ℕ → Response) (d : Desk) (r : Result ℕ × Desk)
    : Type 0 where
  pub admitted : OwnerAdmitted a
  pub header : 4 ≤ length d.memory
  pub short : asked d.memory ≤ 8192
  pub within : asked d.memory ≤ length d.memory
  pub handed : r.1.requests ≡ d.requests ++ take (asked d.memory) d.memory ∷ []
  pub reply : (r.0, r.1.memory) ≡ answered (serve (take (asked d.memory) d.memory)) d.memory

-- The view ends before the length, or before the request that it may ask for: the process ends by a fault.
pub record Faulted (a : Answers) (d : Desk) (r : Result ℕ × Desk) : Type 0 where
  pub admitted : OwnerAdmitted a
  pub too_short :
      (length d.memory < 4) ⊎ ((asked d.memory ≤ 8192) × (length d.memory < asked d.memory))
  pub faults : r.0 ≡ panic
  pub memory : r.1.memory ≡ d.memory
  pub requests : r.1.requests ≡ d.requests

give_answer-answered :
    (r : Response) (d : Desk)
    → let (l, d') = give_answer r d in
      ((l, d'.memory) ≡ answered r d.memory) × (d'.requests ≡ d.requests)
unfolding give_answer
give_answer-answered (failed e) d = (refl, refl)
give_answer-answered (replied b) d = elim (Bool-cases (ltb 8192 (length b))) [
  | inl e ↦ rw e (refl, refl)
  | inr e ↦ elim (Bool-cases (ltb (length d.memory) (length b))) [
    | inl f ↦ rw (e, f) (refl, refl)
    | inr f ↦ rw (e, f) (refl, refl)
  ]
]

-- The message was refused with nothing changed, the view was too short, or one request was handed over.
abbrev pub Handled : Answers → (List ℕ → Response) → Desk → Result ℕ × Desk → Type 0
Handled a serve d r = (r ≡ (ok 0, d)) ⊎ (Faulted a d r ⊎ Served a serve d r)

ask_agent-Handled :
    (a : Answers) (serve : List ℕ → Response) (d : Desk)
    → OwnerAdmitted a
    → Handled a serve d (ask_agent serve d)
unfolding ask_agent
ask_agent-Handled a serve d o =
    let request = take (asked d.memory) d.memory in
    let given =
      give_answer-answered (serve request) (record d { requests = d.requests ++ request ∷ [] }) in
    elim (Bool-cases (ltb (length d.memory) 4)) [
      | inl h ↦ inr (
          inl (
            rw h (record {
              admitted = o;
              too_short = inl (ground (arith, h));
              faults = refl;
              memory = refl;
              requests = refl;
            })))
      | inr h ↦ elim (Bool-cases (ltb 8192 (asked d.memory))) [
        | inl e ↦ inl (rw (h, e) refl)
        | inr e ↦ elim (Bool-cases (ltb (length d.memory) (asked d.memory))) [
          | inl w ↦ inr (
              inl (
                rw (h, e, w)
                  (record {
                    admitted = o;
                    too_short = inr (ground (arith, e), ground (arith, w));
                    faults = refl;
                    memory = refl;
                    requests = refl;
                  })))
          | inr w ↦ inr (
              inr (record {
                admitted = o;
                header = ground (arith, h);
                short = ground (arith, e);
                within = ground (arith, w);
                handed = rw (h, e, w) given.1;
                reply = rw (h, e, w) given.0;
              }))
        ]
      ]
    ]

suc_sub : (n : ℕ) → suc n - 1 ≡ n
suc_sub n = omega arith

-- A deferred call that gives back what was taken keeps the rest.
module _ (a : Answers) (serve : List ℕ → Response) (d d' : Desk) (call : Desk → Desk)
    (memory_taken : d'.memory ≡ d.memory) (requests_taken : d'.requests ≡ d.requests)
    (undone : call d' ≡ d) (memory_kept : (e : Desk) → (call e).memory ≡ e.memory)
    (requests_kept : (e : Desk) → (call e).requests ≡ e.requests) where
  deferred-same :
      (r : Result ℕ × Desk)
      → ((deferred call r).0 ≡ r.0)
        × ((deferred call r).1.memory ≡ r.1.memory)
        × ((deferred call r).1.requests ≡ r.1.requests)
  deferred-same (ok l, e) = (refl, memory_kept e, requests_kept e)
  deferred-same (err x, e) = (refl, memory_kept e, requests_kept e)
  deferred-same (panic, e) = (refl, refl, refl)

  deferred-Handled :
      (r : Result ℕ × Desk) → Handled a serve d' r → Handled a serve d (deferred call r)
  deferred-Handled r (inl e) = inl (ap (deferred call) e ∙ ap (λ x. (ok 0, x)) undone)
  deferred-Handled r (inr (inl f)) =
      let (value, memory, requests) = deferred-same r in
      inr (
        inl (record {
          admitted = f.admitted;
          too_short =
              subst (λ m. (length m < 4) ⊎ ((asked m ≤ 8192) × (length m < asked m))) memory_taken
                f.too_short;
          faults = value ∙ f.faults;
          memory = memory ∙ f.memory ∙ memory_taken;
          requests = requests ∙ f.requests ∙ requests_taken;
        }))
  deferred-Handled r (inr (inr s)) =
      let (value, memory, requests) = deferred-same r in
      inr (
        inr (record {
          admitted = s.admitted;
          header = subst (λ m. 4 ≤ length m) memory_taken s.header;
          short = subst (λ m. asked m ≤ 8192) memory_taken s.short;
          within = subst (λ m. asked m ≤ length m) memory_taken s.within;
          handed =
              requests
              ∙ s.handed
              ∙ ap (λ l. l ++ take (asked d'.memory) d'.memory ∷ []) requests_taken
              ∙ ap (λ m. d.requests ++ take (asked m) m ∷ []) memory_taken;
          reply =
              ap (λ l. (l, (deferred call r).1.memory)) value
              ∙ ap (λ m. (r.0, m)) memory
              ∙ s.reply
              ∙ ap (λ m. answered (serve (take (asked m) m)) m) memory_taken;
        }))

with_view-Handled :
    (a : Answers) (serve : List ℕ → Response) (d : Desk)
    → OwnerAdmitted a
    → Handled a serve d (with_view a serve d)
unfolding with_view
with_view-Handled a serve d o = if_either (Handled a serve d) a.view_error (inl refl) (
    deferred-Handled a serve d (record d { views = suc d.views }) unmap refl refl
      (ap (λ n. record d { views = n }) (suc_sub d.views)) (λ e. refl) (λ e. refl) _
      (ask_agent-Handled a serve (record d { views = suc d.views }) o))

check_owner-Handled :
    (a : Answers) (serve : List ℕ → Response) (d : Desk)
    → Handled a serve d (check_owner a a.user_sid a.default_sid a.map_owner serve d)
check_owner-Handled a serve d =
    elim (check_owner-admitted a a.user_sid a.default_sid a.map_owner serve d refl refl refl) [
      | inl e ↦ inl e
      | inr (o, e) ↦ subst (Handled a serve d) (sym e) (with_view-Handled a serve d o)
    ]

with_mapping-Handled :
    (a : Answers) (serve : List ℕ → Response) (d : Desk)
    → Handled a serve d (with_mapping a serve d)
unfolding with_mapping
with_mapping-Handled a serve d = if_either (Handled a serve d) (a.file_mapping == 0) (inl refl) (
    deferred-Handled a serve d (record d { mappings = suc d.mappings }) close_mapping refl refl
      (ap (λ n. record d { mappings = n }) (suc_sub d.mappings)) (λ e. refl) (λ e. refl) _
      (check_owner-Handled a serve (record d { mappings = suc d.mappings })))

-- A message of another kind goes to Windows' own procedure. One of the right kind either returns 0 and
-- changes nothing; or its identifier is PuTTY's, the mapping is owned by the user or by the owner of this
-- process, and one of these two holds. The view ends before the four bytes of the length, or before the at
-- most 8192 bytes that it asks for: the access faults, which ends the process, with nothing handed over. Or
-- exactly those bytes of the view are handed to the agent; then a reply that is an error, or longer than
-- 8192, leaves the memory and returns 0, one that is longer than the view faults, and any other is written
-- over the memory's start, with 1 returned.
pub wnd_proc-Handled :
    (a : Answers) (serve : List ℕ → Response) (message dw_data : ℕ) (d : Desk)
    → ((message ≢ 0x004a) × (wnd_proc a serve message dw_data d ≡ (ok a.def_window_proc, d)))
      ⊎ ((message ≡ 0x004a) × (wnd_proc a serve message dw_data d ≡ (ok 0, d)))
      ⊎ ((message ≡ 0x004a)
          × (dw_data ≡ 0x804e50ba)
          × (Faulted a d (wnd_proc a serve message dw_data d)
              ⊎ Served a serve d (wnd_proc a serve message dw_data d)))
unfolding wnd_proc
wnd_proc-Handled a serve message dw_data d = elim (Bool-cases (message == 0x004a)) [
  | inr m ↦ inl (ground arith, rw m refl)
  | inl m ↦ elim (Bool-cases (dw_data == 0x804e50ba)) [
    | inr i ↦ inr (inl (ground arith, rw (m, i) refl))
    | inl i ↦
        rw (m, i)
          elim (with_mapping-Handled a serve d) [
            | inl e ↦ inr (inl (ground arith, e))
            | inr s ↦ inr (inr (ground arith, ground arith, s))
          ]
  ]
]

-- Every mapping and view that the procedure opens is closed again, unless the process ends by a fault.
pub wnd_proc_closes :
    (a : Answers) (serve : List ℕ → Response) (message dw_data : ℕ) (d : Desk)
    → let (l, d') = wnd_proc a serve message dw_data d in
      (l ≡ panic) ⊎ ((d'.mappings ≡ d.mappings) × (d'.views ≡ d.views))
unfolding wnd_proc with_mapping check_owner with_view ask_agent give_answer
wnd_proc_closes a serve message dw_data d = ground arith
