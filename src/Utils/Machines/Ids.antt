-- ===== src/Utils/Machines/Ids.antt =====
-- Which machines are read from the command lines.
use keybridge.Base.{
  ℕ, ◌≡◌, refl, ap, sym, subst, ◌∙◌, List, [], ◌∷◌, ◌++◌, true, false, Option, none, some, inl, inr,
  ◌==◌, length, arith, Bool-cases, take-append, length-append,
}
use keybridge.Base.Outcome.{Result, ok, panic}
use keybridge.Utils.Machines.{
  split, has_brace, later_or, last_braced, is_key, collect, inside, all_inside, get_vm_ids,
}
use keybridge.Utils.Machines.Arguments.{LastBraced, last_braced-LastBraced, LastBraced-last_braced}
use keybridge.Utils.Machines.Keys.{
  Collects, is_key-here, is_key-later, is_key-from, collect-has, collect-from,
}

-- A key without its first and its last byte.
inside-ends : (b e : ℕ) (id : List ℕ) → inside (b ∷ id ++ e ∷ []) ≡ ok id
unfolding inside
inside-ends b e [] = refl
inside-ends b e (c ∷ id) = ap ok (
    take-append (length (id ++ e ∷ [])) (c ∷ id) (e ∷ [])
      (omega (arith, length-append id (e ∷ []))))

-- The ways to take the inside of a key.
data Inside (k : List ℕ) : Type 0 where
  short : has_brace k ≡ true → k ≡ 123 ∷ [] → inside k ≡ panic → Inside k
  bare : has_brace k ≡ false → Inside k
  ends : (b e : ℕ) (id : List ℕ) → k ≡ b ∷ id ++ e ∷ [] → Inside k

inside-Inside : (k : List ℕ) → Inside k
unfolding inside has_brace
inside-Inside [] = bare refl
inside-Inside (b ∷ []) = elim (Bool-cases (b == 123)) [
  | inl q ↦ short (ground (arith, q)) (ground (arith, q)) refl
  | inr q ↦ bare (ground (arith, q))
]
inside-Inside (b ∷ c ∷ rest) =
    let (id, e, q) = inside_last c rest in ends b e id (ap (λ l. b ∷ l) q)
  where
    inside_last : (c : ℕ) (rest : List ℕ) → (id : List ℕ) × (e : ℕ) × (c ∷ rest ≡ id ++ e ∷ [])
    inside_last c [] = ([], c, refl)
    inside_last c (d ∷ rest) = let (id, e, q) = inside_last d rest in (c ∷ id, e, ap (λ l. c ∷ l) q)

later_or-brace :
    (later : Option (List ℕ)) (arg k : List ℕ)
    → (later ≡ some k → has_brace k ≡ true)
    → later_or later arg ≡ some k
    → has_brace k ≡ true
later_or-brace (some j) arg k before h = before h
later_or-brace none arg k before h = elim (Bool-cases (has_brace arg)) [
  | inl q ↦ ground (arith, h, q)
  | inr q ↦ absurd (ground (arith, h, q))
]

last_braced-brace :
    (args : List (List ℕ)) (k : List ℕ) → last_braced args ≡ some k → has_brace k ≡ true
unfolding last_braced
last_braced-brace [] k h = absurd (ground arith)
last_braced-brace (arg ∷ args) k h =
    later_or-brace (last_braced args) arg k (last_braced-brace args k) h

-- What the last loop returns.
data Taken (ks : List (List ℕ)) : Type 0 where
  broken : is_key (123 ∷ []) ks ≡ true → all_inside ks ≡ panic → Taken ks
  taken :
      (ids : List (List ℕ))
      → all_inside ks ≡ ok ids
      → is_key (123 ∷ []) ks ≡ false
      → ((b e : ℕ) (id : List ℕ) → is_key (b ∷ id ++ e ∷ []) ks ≡ true → is_key id ids ≡ true)
      → ((id : List ℕ)
          → is_key id ids ≡ true
          → (b : ℕ) × (e : ℕ) × (is_key (b ∷ id ++ e ∷ []) ks ≡ true))
      → Taken ks

same_inside : (b e b' e' : ℕ) (id id' : List ℕ) → b ∷ id ++ e ∷ [] ≡ b' ∷ id' ++ e' ∷ [] → id ≡ id'
same_inside b e b' e' id id' h =
    let p : ok id ≡ ok id' = sym (inside-ends b e id) ∙ ap inside h ∙ inside-ends b' e' id' in
    ground (arith, p)

no_brace_alone :
    (b e : ℕ) (id : List ℕ) (ks : List (List ℕ))
    → is_key (123 ∷ []) ks ≡ false
    → is_key (123 ∷ []) ((b ∷ id ++ e ∷ []) ∷ ks) ≡ false
unfolding is_key
no_brace_alone b e [] ks whole = ground (arith, whole)
no_brace_alone b e (c ∷ id) ks whole = ground (arith, whole)

taken_first :
    (b e : ℕ) (id : List ℕ) (ks : List (List ℕ)) → Taken ks → Taken ((b ∷ id ++ e ∷ []) ∷ ks)
unfolding all_inside
taken_first b e id ks (broken h p) =
    broken (is_key-later (123 ∷ []) (b ∷ id ++ e ∷ []) ks h) (rw (inside-ends b e id, p) refl)
taken_first b e id ks (taken ids r whole fwd bwd) =
    taken (id ∷ ids) (rw (inside-ends b e id, r) refl) (no_brace_alone b e id ks whole)
      (λ b' e' id' h. elim (is_key-from (b' ∷ id' ++ e' ∷ []) (b ∷ id ++ e ∷ []) ks h) [
        | inl same ↦
            subst (λ j. is_key j (id ∷ ids) ≡ true) (same_inside b e b' e' id id' same)
              (is_key-here id ids)
        | inr later ↦ is_key-later id' id ids (fwd b' e' id' later)
      ])
      (λ id' h. elim (is_key-from id' id ids h) [
        | inl same ↦ (
          b,
          e,
          subst (λ j. is_key (b ∷ j ++ e ∷ []) ((b ∷ id ++ e ∷ []) ∷ ks) ≡ true) same
              (is_key-here (b ∷ id ++ e ∷ []) ks),
        )
        | inr later ↦
            let (b', e', l) = bwd id' later in
            (b', e', is_key-later (b' ∷ id' ++ e' ∷ []) (b ∷ id ++ e ∷ []) ks l)
      ])

take_first :
    (k : List ℕ) (ks : List (List ℕ)) → Inside k → has_brace k ≡ true → Taken ks → Taken (k ∷ ks)
unfolding all_inside
take_first k ks (short h q p) brace t =
    broken (subst (λ j. is_key j (k ∷ ks) ≡ true) q (is_key-here k ks)) (rw p refl)
take_first k ks (bare q) brace t = absurd (ground (arith, q, brace))
take_first k ks (ends b e id q) brace t =
    subst (λ j. Taken (j ∷ ks)) (sym q) (taken_first b e id ks t)

taken_of :
    (ks : List (List ℕ)) → ((k : List ℕ) → is_key k ks ≡ true → has_brace k ≡ true) → Taken ks
unfolding all_inside is_key
taken_of [] braced =
    taken [] refl refl (λ b e id h. absurd (ground (arith, h))) (λ id h. absurd (ground (arith, h)))
taken_of (k ∷ ks) braced =
    take_first k ks (inside-Inside k) (braced k (is_key-here k ks))
      (taken_of ks (λ j h. braced j (is_key-later j k ks h)))

-- One of the command lines has this as its last argument with a brace.
pub record Names (lines : List (List ℕ)) (k : List ℕ) : Type 0 where
  pub before : List (List ℕ)
  pub line : List ℕ
  pub behind : List (List ℕ)
  pub stands : lines ≡ before ++ line ∷ behind
  pub named : LastBraced line k

-- What GetVMIDs returns for these command lines.
pub data Found (lines : List (List ℕ)) (r : Result (List (List ℕ))) : Type 0 where
  crashed : Names lines (123 ∷ []) → r ≡ panic → Found lines r
  found :
      (ids : List (List ℕ))
      → r ≡ ok ids
      → ¬ Names lines (123 ∷ [])
      → ((b e : ℕ) (id : List ℕ) → Names lines (b ∷ id ++ e ∷ []) → is_key id ids ≡ true)
      → ((id : List ℕ) → is_key id ids ≡ true → (b : ℕ) × (e : ℕ) × Names lines (b ∷ id ++ e ∷ []))
      → Found lines r

collected :
    (lines : List (List ℕ)) (k : List ℕ) → is_key k (collect lines []) ≡ true → Collects lines k
unfolding is_key
collected lines k h = elim (collect-from lines [] k h) [
  | inl none_yet ↦ absurd (ground arith)
  | inr n ↦ n
]

collected-Names :
    (lines : List (List ℕ)) (k : List ℕ) → is_key k (collect lines []) ≡ true → Names lines k
collected-Names lines k h =
    let n = collected lines k h in
    record {
      before = n.before;
      line = n.line;
      behind = n.behind;
      stands = n.stands;
      named = last_braced-LastBraced n.line k n.names;
    }

is_key-Names :
    (lines : List (List ℕ)) (k : List ℕ) → Names lines k → is_key k (collect lines []) ≡ true
is_key-Names lines k n =
    subst (λ ls. is_key k (collect ls []) ≡ true) (sym n.stands)
      (collect-has n.before n.behind [] n.line k (LastBraced-last_braced n.line k n.named))

found_of : (lines : List (List ℕ)) → Taken (collect lines []) → Found lines (get_vm_ids (inr lines))
unfolding get_vm_ids
found_of lines (broken h p) = crashed (collected-Names lines (123 ∷ []) h) p
found_of lines (taken ids r whole fwd bwd) =
    found ids r (λ n. ground (arith, whole, is_key-Names lines (123 ∷ []) n))
      (λ b e id n. fwd b e id (is_key-Names lines (b ∷ id ++ e ∷ []) n))
      (λ id h. let (b, e, k) = bwd id h in (b, e, collected-Names lines (b ∷ id ++ e ∷ []) k))

-- For any command lines, when the query succeeds, where the arguments of a line are the parts without spaces
-- that make it up with a space between each two: either one of the processes has as its last argument with
-- a brace a brace alone, and the program panics, or the identifiers returned are exactly what those
-- arguments hold between their first and their last byte, whatever these two bytes are, and no such
-- argument is a brace alone.
pub get_vm_ids-Found : (lines : List (List ℕ)) → Found lines (get_vm_ids (inr lines))
get_vm_ids-Found lines = found_of lines (
    taken_of (collect lines [])
      λ k h. let n = collected lines k h in last_braced-brace (split 32 n.line) k n.names)
