-- ===== src/Base/Lex.antt =====
-- Bytewise comparison: Rust's `Ord` of byte slices (`memcmp`, then length), and the laws that
-- order-preserving encodings rest on.
use Prim.Native.Nat.{ℕ, ◌-◌, ◌<◌, compare, Ordering}
use mathlib.Core.Path.{◌≡◌, refl}
use mathlib.Core.List.{List, [], ◌∷◌, ◌++◌, map}
use mathlib.Core.Option.{Option, none, some}
use native.Mathlib.Omega.{arith}
use stratodb.Base.Lists.{All, length}

-- `Ordering::then`.
abbrev pub and_then : Ordering → Ordering → Ordering
and_then Ordering.eq o = o
and_then Ordering.lt o = Ordering.lt
and_then Ordering.gt o = Ordering.gt

-- `Ordering::reverse`.
abbrev pub swap : Ordering → Ordering
swap Ordering.lt = Ordering.gt
swap Ordering.eq = Ordering.eq
swap Ordering.gt = Ordering.lt

-- `<[u8]>::cmp`.
unfoldable pub lex : List ℕ → List ℕ → Ordering
lex [] [] = Ordering.eq
lex [] (b ∷ ys) = Ordering.lt
lex (a ∷ xs) [] = Ordering.gt
lex (a ∷ xs) (b ∷ ys) = and_then (compare a b) (lex xs ys)

abbrev pub and_then? : Ordering → Option Ordering → Option Ordering
and_then? Ordering.eq o = o
and_then? Ordering.lt o = some Ordering.lt
and_then? Ordering.gt o = some Ordering.gt

-- The same comparison where neither side is a proper prefix of the other, and `none` where one is.
unfoldable pub lex? : List ℕ → List ℕ → Option Ordering
lex? [] [] = some Ordering.eq
lex? [] (b ∷ ys) = none
lex? (a ∷ xs) [] = none
lex? (a ∷ xs) (b ∷ ys) = and_then? (compare a b) (lex? xs ys)

abbrev pub IsByte : ℕ → Type 0
IsByte b = b < 256

-- `!b` on a byte.
abbrev pub complement : ℕ → ℕ
complement b = 255 - b

pub and_then_assoc : (a b c : Ordering) → and_then (and_then a b) c ≡ and_then a (and_then b c)
and_then_assoc a b c = ground arith

-- A decided comparison does not look at what follows.
pub lex?-append :
    (x y s t : List ℕ) (c : Ordering)
    → lex? x y ≡ some c
    → lex (x ++ s) (y ++ t) ≡ and_then c (lex s t)
unfolding lex lex?
lex?-append [] [] s t c h = ground arith
lex?-append [] (b ∷ y) s t c h = cc
lex?-append (a ∷ x) [] s t c h = cc
lex?-append (a ∷ x) (b ∷ y) s t c h = ground (arith, lex?-append x y s t c)

pub lex?-append_lex? :
    (x y s t : List ℕ) (c : Ordering)
    → lex? x y ≡ some c
    → lex? (x ++ s) (y ++ t) ≡ and_then? c (lex? s t)
unfolding lex?
lex?-append_lex? [] [] s t c h = ground arith
lex?-append_lex? [] (b ∷ y) s t c h = cc
lex?-append_lex? (a ∷ x) [] s t c h = cc
lex?-append_lex? (a ∷ x) (b ∷ y) s t c h = ground (arith, lex?-append_lex? x y s t c)

pub lex?-lex : (x y : List ℕ) (c : Ordering) → lex? x y ≡ some c → lex x y ≡ c
unfolding lex lex?
lex?-lex [] [] c h = cc
lex?-lex [] (b ∷ y) c h = cc
lex?-lex (a ∷ x) [] c h = cc
lex?-lex (a ∷ x) (b ∷ y) c h = ground (arith, lex?-lex x y c)

-- Complementing every byte reverses a decided comparison.
pub lex?-complement :
    (x y : List ℕ) (c : Ordering)
    → All IsByte x
    → All IsByte y
    → lex? x y ≡ some c
    → lex? (map complement x) (map complement y) ≡ some (swap c)
unfolding lex?
lex?-complement [] [] c hx hy h = ground arith
lex?-complement [] (b ∷ y) c hx hy h = cc
lex?-complement (a ∷ x) [] c hx hy h = cc
lex?-complement (a ∷ x) (b ∷ y) c hx hy h = ground (arith, lex?-complement x y c)

-- Lists of one length are never proper prefixes of each other.
pub lex?_same_length : (x y : List ℕ) → length x ≡ length y → lex? x y ≡ some (lex x y)
unfolding lex lex?
lex?_same_length [] [] h = refl
lex?_same_length [] (b ∷ y) h = absurd (omega arith)
lex?_same_length (a ∷ x) [] h = absurd (omega arith)
lex?_same_length (a ∷ x) (b ∷ y) h = ground (arith, lex?_same_length x y)

pub lex_refl : (x : List ℕ) → lex x x ≡ Ordering.eq
unfolding lex
lex_refl [] = refl
lex_refl (a ∷ x) = ground (arith, lex_refl x)

pub lex-eq : (x y : List ℕ) → lex x y ≡ Ordering.eq → x ≡ y
unfolding lex
lex-eq [] [] h = refl
lex-eq [] (b ∷ y) h = cc
lex-eq (a ∷ x) [] h = cc
lex-eq (a ∷ x) (b ∷ y) h = ground (arith, lex-eq x y)

pub lex-swap : (x y : List ℕ) → lex y x ≡ swap (lex x y)
unfolding lex
lex-swap [] [] = refl
lex-swap [] (b ∷ y) = refl
lex-swap (a ∷ x) [] = refl
lex-swap (a ∷ x) (b ∷ y) = ground (arith, lex-swap x y)

pub lex-prefix : (p x y : List ℕ) → lex (p ++ x) (p ++ y) ≡ lex x y
unfolding lex
lex-prefix [] x y = refl
lex-prefix (a ∷ p) x y = ground (arith, lex-prefix p x y)

pub complement-All : (x : List ℕ) → All IsByte (map complement x)
complement-All [] = tt
complement-All (a ∷ x) = (omega arith, complement-All x)
