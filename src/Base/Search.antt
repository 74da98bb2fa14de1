-- ===== src/Base/Search.antt =====
-- Byte texts: equality, search, splitting, and decimal numbers as Rust's `str` and `u64` have them.
use Prim.Native.Nat.{ℕ, suc, ◌<◌}
use mathlib.Core.Path.{◌≡◌, refl}
use mathlib.Core.Bool.{Bool, true, false, ◌&&◌, ◌||◌}
use mathlib.Core.Logic.{inl, inr}
use mathlib.Core.Option
use mathlib.Core.Option.{Option, none, some}
use mathlib.Core.List.{List, [], ◌∷◌, ◌++◌}
use native.Mathlib.Omega.{arith}
use stratodb.Base.Tests.{◌==◌, if◌then◌else◌, Bool-cases, Option-cases, some-inj}
use stratodb.Base.Lists.{length}

unfoldable pub text_eq : List ℕ → List ℕ → Bool
text_eq [] [] = true
text_eq [] (b ∷ y) = false
text_eq (a ∷ x) [] = false
text_eq (a ∷ x) (b ∷ y) = a == b && text_eq x y

pub text_eq_sound : (x y : List ℕ) → text_eq x y ≡ true → x ≡ y
unfolding text_eq
text_eq_sound [] [] h = refl
text_eq_sound [] (b ∷ y) h = cc
text_eq_sound (a ∷ x) [] h = cc
text_eq_sound (a ∷ x) (b ∷ y) h = ground (arith, text_eq_sound x y)

pub text_eq_refl : (x : List ℕ) → text_eq x x ≡ true
unfolding text_eq
text_eq_refl [] = refl
text_eq_refl (a ∷ x) = ground (arith, text_eq_refl x)

-- `s.find(c)`.
unfoldable pub find : ℕ → List ℕ → Option ℕ
find c [] = none
find c (b ∷ s) = if b == c then some 0 else Option.map suc (find c s)

-- `s.contains(c)`.
unfoldable pub contains : ℕ → List ℕ → Bool
contains c [] = false
contains c (b ∷ s) = b == c || contains c s

pub find-append :
    (c : ℕ) (x y : List ℕ) → contains c x ≡ false → find c (x ++ c ∷ y) ≡ some (length x)
unfolding find contains
find-append c [] y h = ground arith
find-append c (b ∷ x) y h = ground (arith, find-append c x y)

pub find_absent : (c : ℕ) (x : List ℕ) → contains c x ≡ false → find c x ≡ none
unfolding find contains
find_absent c [] h = refl
find_absent c (b ∷ x) h = ground (arith, find_absent c x)

pub contains-append : (c : ℕ) (x y : List ℕ) → contains c (x ++ y) ≡ (contains c x || contains c y)
unfolding contains
contains-append c [] y = refl
contains-append c (b ∷ x) y = ground (arith, contains-append c x y)

-- Where a character is found is inside the text.
pub find-lt : (c : ℕ) (s : List ℕ) (i : ℕ) → find c s ≡ some i → i < length s
unfolding find
find-lt c [] i e = cc
find-lt c (b ∷ s) i e = elim (Bool-cases (b == c)) [
  | inl here ↦ let found : some 0 ≡ some i = rw here at e in rw (← some-inj found) (omega arith)
  | inr other ↦ elim (Option-cases (find c s)) [
    | inl nothing ↦ let failed : none ≡ some i = rw (other, nothing) at e in cc
    | inr (j, found) ↦
        let next : some (suc j) ≡ some i = rw (other, found) at e in
        rw (← some-inj next) (omega (arith, find-lt c s j found))
  ]
]

abbrev cons_first : ℕ → List (List ℕ) → List (List ℕ)
cons_first b [] = (b ∷ []) ∷ []
cons_first b (part ∷ parts) = (b ∷ part) ∷ parts

-- `s.split(c)`.
unfoldable pub split : ℕ → List ℕ → List (List ℕ)
split c [] = [] ∷ []
split c (b ∷ s) = if b == c then [] ∷ split c s else cons_first b (split c s)

pub split_absent : (c : ℕ) (x : List ℕ) → contains c x ≡ false → split c x ≡ x ∷ []
unfolding split contains
split_absent c [] h = refl
split_absent c (b ∷ x) h = ground (arith, split_absent c x)

pub split-append :
    (c : ℕ) (x y : List ℕ) → contains c x ≡ false → split c (x ++ c ∷ y) ≡ x ∷ split c y
unfolding split contains
split-append c [] y h = ground arith
split-append c (b ∷ x) y h = ground (arith, split-append c x y)
