-- ===== src/Utils/Machines/Keys.antt =====
-- Which arguments of the command lines are collected.
use keybridge.Base.{
  ℕ, ◌≡◌, refl, ap, sym, List, [], ◌∷◌, ◌++◌, Bool, true, false, ◌||◌, Option, none, some, ◌⊎◌, inl,
  inr, arith, Bool-cases, bytes_equal, bytes_equal→eq, bytes_equal_refl,
}
use keybridge.Utils.Machines.{split, last_braced, is_key, put_key, collect}

-- The loop takes this from one of the command lines.
pub record Collects (lines : List (List ℕ)) (k : List ℕ) : Type 0 where
  pub before : List (List ℕ)
  pub line : List ℕ
  pub behind : List (List ℕ)
  pub stands : lines ≡ before ++ line ∷ behind
  pub names : last_braced (split 32 line) ≡ some k

or-true : (b c : Bool) → (b || c ≡ true) → (b ≡ true) ⊎ (c ≡ true)
or-true true c e = inl refl
or-true false c e = inr e

pub is_key-here : (k : List ℕ) (ks : List (List ℕ)) → is_key k (k ∷ ks) ≡ true
unfolding is_key
is_key-here k ks = rw (bytes_equal_refl k) refl

pub is_key-later :
    (k j : List ℕ) (ks : List (List ℕ)) → is_key k ks ≡ true → is_key k (j ∷ ks) ≡ true
unfolding is_key
is_key-later k j ks h = ground (arith, h)

put_key-keeps :
    (k : List ℕ) (new : Option (List ℕ)) (ks : List (List ℕ))
    → is_key k ks ≡ true
    → is_key k (put_key new ks) ≡ true
unfolding put_key
put_key-keeps k none ks h = h
put_key-keeps k (some j) ks h = elim (Bool-cases (is_key j ks)) [
  | inl q ↦ rw q h
  | inr q ↦ rw q (is_key-later k j ks h)
]

put_key-new : (k : List ℕ) (ks : List (List ℕ)) → is_key k (put_key (some k) ks) ≡ true
unfolding put_key
put_key-new k ks = elim (Bool-cases (is_key k ks)) [
  | inl q ↦ rw q q
  | inr q ↦ rw q (is_key-here k ks)
]

pub is_key-from :
    (k j : List ℕ) (ks : List (List ℕ)) → is_key k (j ∷ ks) ≡ true → (j ≡ k) ⊎ (is_key k ks ≡ true)
unfolding is_key
is_key-from k j ks h = elim (or-true (bytes_equal k j) (is_key k ks) h) [
  | inl same ↦ inl (sym (bytes_equal→eq k j same))
  | inr later ↦ inr later
]

put_key-from :
    (k : List ℕ) (new : Option (List ℕ)) (ks : List (List ℕ))
    → is_key k (put_key new ks) ≡ true
    → (is_key k ks ≡ true) ⊎ (new ≡ some k)
unfolding put_key
put_key-from k none ks h = inl h
put_key-from k (some j) ks h = elim (Bool-cases (is_key j ks)) [
  | inl q ↦ inl (ground (arith, h, q))
  | inr q ↦ elim (is_key-from k j ks (ground (arith, h, q))) [
    | inl same ↦ inr (ap some same)
    | inr later ↦ inl later
  ]
]

collect-keeps :
    (lines ks : List (List ℕ)) (k : List ℕ)
    → is_key k ks ≡ true
    → is_key k (collect lines ks) ≡ true
unfolding collect
collect-keeps [] ks k h = h
collect-keeps (line ∷ lines) ks k h =
    collect-keeps lines (put_key (last_braced (split 32 line)) ks) k (put_key-keeps k _ ks h)

pub collect-has :
    (before behind ks : List (List ℕ)) (line k : List ℕ)
    → last_braced (split 32 line) ≡ some k
    → is_key k (collect (before ++ line ∷ behind) ks) ≡ true
unfolding collect
collect-has [] behind ks line k names =
    collect-keeps behind (put_key (last_braced (split 32 line)) ks) k (rw names (put_key-new k ks))
collect-has (l ∷ before) behind ks line k names =
    collect-has before behind (put_key (last_braced (split 32 l)) ks) line k names

pub collect-from :
    (lines ks : List (List ℕ)) (k : List ℕ)
    → is_key k (collect lines ks) ≡ true
    → (is_key k ks ≡ true) ⊎ Collects lines k
unfolding collect
collect-from [] ks k h = inl h
collect-from (line ∷ lines) ks k h =
    elim (collect-from lines (put_key (last_braced (split 32 line)) ks) k h) [
      | inl put ↦ elim (put_key-from k (last_braced (split 32 line)) ks put) [
        | inl old ↦ inl old
        | inr names ↦
            inr (record { before = []; line = line; behind = lines; stands = refl; names = names })
      ]
      | inr n ↦ inr (record {
        before = line ∷ n.before;
        line = n.line;
        behind = n.behind;
        stands = ap (λ ls. line ∷ ls) n.stands;
        names = n.names;
      })
    ]
