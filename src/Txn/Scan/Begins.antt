-- ===== src/Txn/Scan/Begins.antt =====
-- Strings of bytes that begin with others, and their order.
use stratodb.Base.{
  both_true, ℕ, zero, suc, ◌≤◌, ◌<◌, ◌≡◌, ◌⊎◌, refl, List, [], ◌∷◌, ◌++◌, true, Bool-cases, inl,
  inr, ◌==◌, Ordering, compare, and_then, lex, length, arith,
}
use stratodb.Txn.Query.{starts_with}

-- What follows of an order by two parts, when it is not `gt`.
head_le : (a b : ℕ) (o : Ordering) → (and_then (compare a b) o ≡ Ordering.gt → ⊥) → a ≤ b
head_le a b o h = ground arith

tail_le :
    (a : ℕ) (o : Ordering) → (and_then (compare a a) o ≡ Ordering.gt → ⊥) → o ≡ Ordering.gt → ⊥
tail_le a o h e = ground arith

-- Between a string and one that begins with it there are only strings that do.
pub starts_with_between :
    (prefix c d : List ℕ)
    → (lex prefix c ≡ Ordering.gt → ⊥)
    → (lex c d ≡ Ordering.gt → ⊥)
    → starts_with prefix d ≡ true
    → starts_with prefix c ≡ true
unfolding starts_with lex
starts_with_between [] c d h k s = refl
starts_with_between (p ∷ prefix) [] d h k s = absurd (h refl)
starts_with_between (p ∷ prefix) (x ∷ c) [] h k s = cc
starts_with_between (p ∷ prefix) (x ∷ c) (y ∷ d) h k s =
    let (first, later) = both_true (p == y) (starts_with prefix d) s in
    let is_y : p ≡ y = ground arith in
    let low : p ≤ x = head_le p x (lex prefix c) h in
    let high : x ≤ y = head_le x y (lex c d) k in
    let is_x : x ≡ p = omega arith in
    let h' = tail_le p (lex prefix c) (rw is_x at h) in
    let k' = tail_le p (lex c d) (rw (is_x, ← is_y) at k) in
    let same : (p == x) ≡ true = ground arith in
    rw (same, starts_with_between prefix c d h' k' later) refl

-- What is known of strings that begin with others.
starts_with-append : (p x : List ℕ) → starts_with p (p ++ x) ≡ true
unfolding starts_with
starts_with-append [] x = refl
starts_with-append (a ∷ p) x = ground (arith, starts_with-append p x)

pub starts_with-same :
    (a x y : List ℕ) → starts_with x y ≡ true → starts_with (a ++ x) (a ++ y) ≡ true
unfolding starts_with
starts_with-same [] x y h = h
starts_with-same (b ∷ a) x y h = ground (arith, starts_with-same a x y h)

pub starts_with-longer : (x y z : List ℕ) → starts_with x y ≡ true → starts_with x (y ++ z) ≡ true
unfolding starts_with
starts_with-longer [] y z h = refl
starts_with-longer (a ∷ x) [] z h = cc
starts_with-longer (a ∷ x) (b ∷ y) z h = ground (arith, starts_with-longer x y z)

pub starts_with-split : (x y : List ℕ) → starts_with x y ≡ true → (rest : List ℕ) × (y ≡ x ++ rest)
unfolding starts_with
starts_with-split [] y h = (y, refl)
starts_with-split (a ∷ x) [] h = cc
starts_with-split (a ∷ x) (b ∷ y) h =
    let (first, later) = both_true (a == b) (starts_with x y) h in
    let same : a ≡ b = ground arith in
    let (rest, e) = starts_with-split x y later in (rest, rw (same, e) refl)

pub starts_with-parts :
    (a x b y : List ℕ)
    → length a ≡ length b
    → starts_with (a ++ x) (b ++ y) ≡ true
    → (a ≡ b) × (starts_with x y ≡ true)
unfolding starts_with
starts_with-parts [] x [] y l h = (refl, h)
starts_with-parts [] x (c ∷ b) y l h = absurd (omega arith)
starts_with-parts (c ∷ a) x [] y l h = absurd (omega arith)
starts_with-parts (c ∷ a) x (d ∷ b) y l h =
    let (first, later) = both_true (c == d) (starts_with (a ++ x) (b ++ y)) h in
    let same : c ≡ d = ground arith in
    let (e, rest) = starts_with-parts a x b y (omega arith) later in (rw (same, e) refl, rest)

-- A beginning of two strings in a row begins with the first, or is one of its beginnings.
pub starts_with-either :
    (p c e : List ℕ)
    → starts_with p (c ++ e) ≡ true
    → (starts_with p c ≡ true) ⊎ (starts_with c p ≡ true)
unfolding starts_with
starts_with-either [] c e h = inl refl
starts_with-either (a ∷ p) [] e h = inr refl
starts_with-either (a ∷ p) (b ∷ c) e h =
    let (first, later) = both_true (a == b) (starts_with p (c ++ e)) h in
    let back : (b == a) ≡ true = ground arith in
    elim (starts_with-either p c e later) [
      | inl shorter ↦ inl (rw (first, shorter) refl)
      | inr longer ↦ inr (rw (back, longer) refl)
    ]

pub lex-shorter : (p z y : List ℕ) → (lex (p ++ z) y ≡ Ordering.gt → ⊥) → lex p y ≡ Ordering.gt → ⊥
unfolding lex
lex-shorter [] z [] h e = cc
lex-shorter [] z (b ∷ y) h e = cc
lex-shorter (a ∷ p) z [] h e = h refl
lex-shorter (a ∷ p) z (b ∷ y) h e =
    let near = head_le a b (lex (p ++ z) y) h in
    elim (Bool-cases (a == b)) [
      | inl same ↦
          let is_b : a ≡ b = ground arith in
          lex-shorter p z y (tail_le b (lex (p ++ z) y) (rw is_b at h))
            (rest_gt b (lex p y) (rw is_b at e))
      | inr differ ↦ let less : a < b = ground arith in far a b (lex p y) less e
    ]
  where
    rest_gt : (b : ℕ) (o : Ordering) → and_then (compare b b) o ≡ Ordering.gt → o ≡ Ordering.gt
    rest_gt b o q = ground arith

    far : (a b : ℕ) (o : Ordering) → a < b → and_then (compare a b) o ≡ Ordering.gt → ⊥
    far a b o less q = ground arith

-- As many bytes 0 are behind no string that is not shorter.
abbrev pub zeros : ℕ → List ℕ
zeros zero = []
zeros (suc n) = 0 ∷ zeros n

pub zeros_first : (n : ℕ) (y : List ℕ) → n ≤ length y → lex (zeros n) y ≡ Ordering.gt → ⊥
unfolding lex
zeros_first zero [] h e = cc
zeros_first zero (b ∷ y) h e = cc
zeros_first (suc n) [] h e = absurd (omega arith)
zeros_first (suc n) (b ∷ y) h e = elim (Bool-cases (0 == b)) [
  | inl same ↦
      let is_0 : 0 ≡ b = ground arith in
      zeros_first n y (omega arith) (rest_gt b (lex (zeros n) y) (rw is_0 at e))
  | inr differ ↦ let less : 0 < b = ground arith in far b (lex (zeros n) y) less e
]
  where
    rest_gt : (b : ℕ) (o : Ordering) → and_then (compare b b) o ≡ Ordering.gt → o ≡ Ordering.gt
    rest_gt b o q = ground arith

    far : (b : ℕ) (o : Ordering) → 0 < b → and_then (compare 0 b) o ≡ Ordering.gt → ⊥
    far b o less q = ground arith
