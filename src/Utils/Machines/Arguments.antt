-- ===== src/Utils/Machines/Arguments.antt =====
-- The arguments of a command line, and the last of them that has a brace, by what they are and not by how the
-- code finds them.
use keybridge.Base.{
  ℕ, ◌≡◌, ◌≢◌, refl, ap, sym, subst, ◌∙◌, List, [], ◌∷◌, ◌++◌, true, false, Option, none, some, inl,
  inr, ◌==◌, arith, Bool-cases, All,
}
use keybridge.Utils.Machines.{split, cons_first, has_brace, later_or, last_braced}

-- The arguments with a space between each two.
abbrev pub spaced : List (List ℕ) → List ℕ
spaced [] = []
spaced (a ∷ []) = a
spaced (a ∷ b ∷ args) = a ++ 32 ∷ spaced (b ∷ args)

abbrev pub HasNoSpace : List ℕ → Type 0
HasNoSpace = All (λ b. b ≢ 32)

abbrev pub HasNoBrace : List ℕ → Type 0
HasNoBrace = All (λ b. b ≢ 123)

-- A command line is some arguments without spaces, with a space between each two. One of them has a brace, and
-- is the last such.
pub record LastBraced (line k : List ℕ) : Type 0 where
  pub before : List (List ℕ)
  pub behind : List (List ℕ)
  pub line_of : line ≡ spaced (before ++ k ∷ behind)
  pub no_spaces : All HasNoSpace (before ++ k ∷ behind)
  pub head : List ℕ
  pub tail : List ℕ
  pub braced : k ≡ head ++ 123 ∷ tail
  pub unbraced : All HasNoBrace behind

has_brace-found :
    (k : List ℕ) → has_brace k ≡ true → (p : List ℕ) × (q : List ℕ) × (k ≡ p ++ 123 ∷ q)
unfolding has_brace
has_brace-found [] h = absurd (ground (arith, h))
has_brace-found (b ∷ k) h = elim (Bool-cases (b == 123)) [
  | inl e ↦ ([], k, ap (λ c. c ∷ k) (let s : b ≡ 123 = ground (arith, e) in s))
  | inr e ↦
      let (p, q, s) = has_brace-found k (ground (arith, h, e)) in (b ∷ p, q, ap (λ l. b ∷ l) s)
]

has_brace-there : (p q : List ℕ) → has_brace (p ++ 123 ∷ q) ≡ true
unfolding has_brace
has_brace-there [] q = refl
has_brace-there (b ∷ p) q = ground (arith, has_brace-there p q)

has_brace-none : (k : List ℕ) → has_brace k ≡ false → HasNoBrace k
unfolding has_brace
has_brace-none [] h = tt
has_brace-none (b ∷ k) h = (λ e. ground (arith, h, e), has_brace-none k (ground (arith, h)))

none-has_brace : (k : List ℕ) → HasNoBrace k → has_brace k ≡ false
unfolding has_brace
none-has_brace [] h = refl
none-has_brace (b ∷ k) h =
    let rest = none-has_brace k h.1 in let other = h.0 in ground (arith, rest, other)

last_braced-unbraced : (args : List (List ℕ)) → All HasNoBrace args → last_braced args ≡ none
unfolding last_braced
last_braced-unbraced [] h = refl
last_braced-unbraced (a ∷ args) h = rw (last_braced-unbraced args h.1, none-has_brace a h.0) refl

later_or-none :
    (later : Option (List ℕ)) (a : List ℕ)
    → later_or later a ≡ none
    → (later ≡ none) × (has_brace a ≡ false)
later_or-none (some x) a h = absurd (ground (arith, h))
later_or-none none a h = (refl, ground (arith, h))

last_braced-unbraced_of : (args : List (List ℕ)) → last_braced args ≡ none → All HasNoBrace args
unfolding last_braced
last_braced-unbraced_of [] h = tt
last_braced-unbraced_of (a ∷ args) h =
    let (l, b) = later_or-none (last_braced args) a h in
    (has_brace-none a b, last_braced-unbraced_of args l)

last_braced-there :
    (before behind : List (List ℕ)) (k : List ℕ)
    → has_brace k ≡ true
    → All HasNoBrace behind
    → last_braced (before ++ k ∷ behind) ≡ some k
unfolding last_braced
last_braced-there [] behind k b none_behind = rw (last_braced-unbraced behind none_behind, b) refl
last_braced-there (a ∷ before) behind k b none_behind =
    rw (last_braced-there before behind k b none_behind) refl

-- Where the last one stands.
abbrev Last : List (List ℕ) → List ℕ → Type 0
Last args k =
    (before : List (List ℕ)) × (behind : List (List ℕ)) × (args ≡ before ++ k ∷ behind)
    × (has_brace k ≡ true)
    × All HasNoBrace behind

later_or-Last :
    (later : Option (List ℕ)) (a : List ℕ) (args : List (List ℕ)) (k : List ℕ)
    → (later ≡ some k → Last args k)
    → (later ≡ none → All HasNoBrace args)
    → later_or later a ≡ some k
    → Last (a ∷ args) k
later_or-Last (some j) a args k found unbraced h =
    let (before, behind, s, b, n) = found h in (a ∷ before, behind, ap (λ l. a ∷ l) s, b, n)
later_or-Last none a args k found unbraced h = elim (Bool-cases (has_brace a)) [
  | inl q ↦
      let same : a ≡ k = ground (arith, h, q) in
      ([], args, ap (λ l. l ∷ args) same, subst (λ j. has_brace j ≡ true) same q, unbraced refl)
  | inr q ↦ absurd (ground (arith, h, q))
]

last_braced-Last : (args : List (List ℕ)) (k : List ℕ) → last_braced args ≡ some k → Last args k
unfolding last_braced
last_braced-Last [] k h = absurd (ground arith)
last_braced-Last (a ∷ args) k h =
    later_or-Last (last_braced args) a args k (last_braced-Last args k)
      (last_braced-unbraced_of args) h

-- `split` gives the arguments of a line,
spaced-cons_first : (b : ℕ) (parts : List (List ℕ)) → spaced (cons_first b parts) ≡ b ∷ spaced parts
spaced-cons_first b [] = refl
spaced-cons_first b (a ∷ []) = refl
spaced-cons_first b (a ∷ c ∷ parts) = refl

split-some : (line : List ℕ) → (a : List ℕ) × (parts : List (List ℕ)) × (split 32 line ≡ a ∷ parts)
unfolding split
split-some [] = ([], [], refl)
split-some (b ∷ line) =
    let (a, parts, e) = split-some line in
    elim (Bool-cases (b == 32)) [
      | inl q ↦ ([], split 32 line, rw q refl)
      | inr q ↦ (b ∷ a, parts, rw (q, e) refl)
    ]

spaced-first :
    (a : List ℕ) (parts args : List (List ℕ))
    → args ≡ a ∷ parts
    → spaced ([] ∷ args) ≡ 32 ∷ spaced args
spaced-first a parts args e = rw e refl

spaced-split : (line : List ℕ) → spaced (split 32 line) ≡ line
unfolding split
spaced-split [] = refl
spaced-split (b ∷ line) = elim (Bool-cases (b == 32)) [
  | inl q ↦
      let (a, parts, e) = split-some line in
      rw q (
        spaced-first a parts (split 32 line) e
        ∙ ap (λ l. 32 ∷ l) (spaced-split line)
        ∙ ap (λ c. c ∷ line) (let s : 32 ≡ b = ground (arith, q) in s))
  | inr q ↦ rw q (spaced-cons_first b (split 32 line) ∙ ap (λ l. b ∷ l) (spaced-split line))
]

cons_first-spaceless :
    (b : ℕ) (parts : List (List ℕ))
    → b ≢ 32
    → All HasNoSpace parts
    → All HasNoSpace (cons_first b parts)
cons_first-spaceless b [] other h = ((other, tt), tt)
cons_first-spaceless b (a ∷ parts) other h = ((other, h.0), h.1)

split-spaceless : (line : List ℕ) → All HasNoSpace (split 32 line)
unfolding split
split-spaceless [] = (tt, tt)
split-spaceless (b ∷ line) = elim (Bool-cases (b == 32)) [
  | inl q ↦ rw q (tt, split-spaceless line)
  | inr q ↦
      rw q
        (cons_first-spaceless b (split 32 line) (λ e. ground (arith, q, e)) (split-spaceless line))
]

-- and only these are.
split-word : (a rest : List ℕ) → HasNoSpace a → split 32 (a ++ 32 ∷ rest) ≡ a ∷ split 32 rest
unfolding split
split-word [] rest h = refl
split-word (b ∷ a) rest h =
    let other : b == 32 ≡ false = let n = h.0 in ground (arith, n) in
    rw (other, split-word a rest h.1) refl

split-alone : (a : List ℕ) → HasNoSpace a → split 32 a ≡ a ∷ []
unfolding split
split-alone [] h = refl
split-alone (b ∷ a) h =
    let other : b == 32 ≡ false = let n = h.0 in ground (arith, n) in
    rw (other, split-alone a h.1) refl

split-spaced :
    (a : List ℕ) (args : List (List ℕ))
    → All HasNoSpace (a ∷ args)
    → split 32 (spaced (a ∷ args)) ≡ a ∷ args
split-spaced a [] h = split-alone a h.0
split-spaced a (b ∷ args) h =
    split-word a (spaced (b ∷ args)) h.0 ∙ ap (λ l. a ∷ l) (split-spaced b args h.1)

split-spaced_middle :
    (before behind : List (List ℕ)) (k : List ℕ)
    → All HasNoSpace (before ++ k ∷ behind)
    → split 32 (spaced (before ++ k ∷ behind)) ≡ before ++ k ∷ behind
split-spaced_middle [] behind k h = split-spaced k behind h
split-spaced_middle (a ∷ before) behind k h = split-spaced a (before ++ k ∷ behind) h

pub last_braced-LastBraced :
    (line k : List ℕ) → last_braced (split 32 line) ≡ some k → LastBraced line k
last_braced-LastBraced line k h =
    let (before, behind, s, b, n) = last_braced-Last (split 32 line) k h in
    let (p, q, e) = has_brace-found k b in
    record {
      before = before;
      behind = behind;
      line_of = sym (spaced-split line) ∙ ap spaced s;
      no_spaces = subst (All HasNoSpace) s (split-spaceless line);
      head = p;
      tail = q;
      braced = e;
      unbraced = n;
    }

pub LastBraced-last_braced :
    (line k : List ℕ) → LastBraced line k → last_braced (split 32 line) ≡ some k
LastBraced-last_braced line k l =
    ap (λ i. last_braced (split 32 i)) l.line_of
    ∙ ap last_braced (split-spaced_middle l.before l.behind k l.no_spaces)
    ∙ last_braced-there l.before l.behind k
        (subst (λ j. has_brace j ≡ true) (sym l.braced) (has_brace-there l.head l.tail)) l.unbraced
