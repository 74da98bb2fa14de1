-- ===== src/Base/Decimal.antt =====
-- Decimal numbers as `u64` prints and parses them.
use Prim.Native.Nat.{ℕ, zero, suc, ◌+◌, ◌-◌, ◌*◌, ◌/◌, ◌%◌, ◌^◌, ◌≤◌, ◌<◌}
use mathlib.Core.Path.{◌≡◌, refl, ap, ◌∙◌}
use mathlib.Core.Logic.{◌≢◌, ◌⊎◌, inl, inr}
use mathlib.Core.Bool.{false, ◌&&◌}
use mathlib.Core.Option.{Option, none, some}
use mathlib.Core.List.{List, [], ◌∷◌}
use native.Mathlib.Nat.{pow-suc}
use native.Mathlib.Omega.{arith}
use stratodb.Base.Tests.{ltb, leb, ◌==◌, if◌then◌else◌, lt→ltb}
use stratodb.Base.Lists.{All}
use stratodb.Base.Search.{contains}

-- `{n}`: the digits, lowest last; a u64 has at most twenty.
emit : ℕ → ℕ → List ℕ → List ℕ
emit zero n tail = tail
emit (suc fuel) n tail =
    let here = (48 + n % 10) ∷ tail in
    let rest = emit fuel (n / 10) here in if ltb n 10 then here else rest

unfoldable pub show_u64 : ℕ → List ℕ
unfolding emit
show_u64 n = emit 20 n []

digits_from : ℕ → List ℕ → Option ℕ
digits_from acc [] = some acc
digits_from acc (c ∷ s) =
    if leb 48 c && leb c 57
    then (let acc' = acc * 10 + (c - 48) in if ltb acc' (2 ^ 64) then digits_from acc' s else none)
    else none

-- `s.parse::<u64>()`, without its error: an optional `+`, then at least one digit.
abbrev digits : List ℕ → Option ℕ
digits [] = none
digits (c ∷ s) = digits_from 0 (c ∷ s)

unfoldable pub parse_u64 : List ℕ → Option ℕ
unfolding digits_from
parse_u64 [] = none
parse_u64 (c ∷ s) = if c == 43 then digits s else digits (c ∷ s)

one_digit :
    (acc d : ℕ) (tail : List ℕ)
    → d < 10
    → acc * 10 + d < 2 ^ 64
    → digits_from acc ((48 + d) ∷ tail) ≡ digits_from (acc * 10 + d) tail
unfolding digits_from
one_digit acc d tail h k = let digit : 48 + d - 48 ≡ d = omega arith in rw digit (ground arith)

first_digit :
    (n : ℕ) (tail : List ℕ) → n < 10 → digits_from 0 ((48 + n) ∷ tail) ≡ digits_from n tail
first_digit n tail h =
    let zeroed : 0 * 10 + n ≡ n = omega arith in
    one_digit 0 n tail h (omega arith) ∙ ap (λ t. digits_from t tail) zeroed

-- One round of `emit`.
emit_last : (fuel n : ℕ) (tail : List ℕ) → n < 10 → emit (suc fuel) n tail ≡ (48 + n) ∷ tail
unfolding emit
emit_last fuel n tail h = let same : n % 10 ≡ n = omega arith in rw (lt→ltb n 10 h, same) refl

emit_more :
    (fuel n : ℕ) (tail : List ℕ)
    → 10 ≤ n
    → emit (suc fuel) n tail ≡ emit fuel (n / 10) ((48 + n % 10) ∷ tail)
unfolding emit
emit_more fuel n tail h = ground arith

lt_or_ge : (a b : ℕ) → (a < b) ⊎ (b ≤ a)
lt_or_ge a b = grind arith

-- Reading the digits of `n` that `emit` put in front of `tail`.
digits_from-emit :
    (fuel n : ℕ) (tail : List ℕ)
    → n < 10 ^ suc fuel
    → n < 2 ^ 64
    → digits_from 0 (emit (suc fuel) n tail) ≡ digits_from n tail
digits_from-emit zero n tail h k =
    let small : n < 10 = omega (arith, pow-suc 10 0) in
    rw (emit_last 0 n tail small) (first_digit n tail small)
digits_from-emit (suc fuel) n tail h k = elim (lt_or_ge n 10) [
  | inl small ↦ rw (emit_last (suc fuel) n tail small) (first_digit n tail small)
  | inr large ↦
      let join : n / 10 * 10 + n % 10 ≡ n = omega arith in
      rw (emit_more (suc fuel) n tail large) (
        digits_from-emit fuel (n / 10) ((48 + n % 10) ∷ tail) (omega (arith, pow-suc 10 (suc fuel)))
          (omega arith)
        ∙ one_digit (n / 10) (n % 10) tail (omega arith) (omega arith)
        ∙ ap (λ t. digits_from t tail) join)
]

abbrev IsDigit : ℕ → Type 0
IsDigit c = (48 ≤ c) × (c ≤ 57)

emit-All : (fuel n : ℕ) (tail : List ℕ) → All IsDigit tail → All IsDigit (emit fuel n tail)
unfolding emit
emit-All zero n tail h = h
emit-All (suc fuel) n tail h =
    ground (arith, emit-All fuel (n / 10) ((48 + n % 10) ∷ tail) ((omega arith, omega arith), h))

-- A non-empty text of digits.
digits_only :
    (s : List ℕ) (n : ℕ) → All IsDigit s → s ≢ [] → digits_from 0 s ≡ some n → parse_u64 s ≡ some n
unfolding parse_u64
digits_only [] n h k e = absurd (k refl)
digits_only (c ∷ s) n (h, hs) k e = ground arith

emit-ne-nil : (fuel n : ℕ) (tail : List ℕ) → tail ≢ [] → emit fuel n tail ≢ []
unfolding emit
emit-ne-nil zero n tail h = h
emit-ne-nil (suc fuel) n tail h = ground (arith, emit-ne-nil fuel (n / 10) ((48 + n % 10) ∷ tail))

show_u64-ne-nil : (n : ℕ) → show_u64 n ≢ []
unfolding show_u64
show_u64-ne-nil n = elim (lt_or_ge n 10) [
  | inl small ↦ rw (emit_last 19 n [] small) (λ e. cc)
  | inr large ↦ rw (emit_more 19 n [] large) (emit-ne-nil 19 (n / 10) _ (λ e. cc))
]

-- Every u64 is read back from what it prints as.
pub parse_u64-show : (n : ℕ) → n < 2 ^ 64 → parse_u64 (show_u64 n) ≡ some n
parse_u64-show n h =
    digits_only (show_u64 n) n (unfold show_u64 in emit-All 20 n [] tt) (show_u64-ne-nil n)
      (unfold show_u64 digits_from in digits_from-emit 19 n [] (omega arith) h)

digits_lack : (c : ℕ) (s : List ℕ) → All IsDigit s → (c < 48) ⊎ (57 < c) → contains c s ≡ false
unfolding contains
digits_lack c [] h k = refl
digits_lack c (b ∷ s) (h, hs) k = ground (arith, digits_lack c s hs k)

pub show_u64-lacks : (n c : ℕ) → (c < 48) ⊎ (57 < c) → contains c (show_u64 n) ≡ false
unfolding show_u64
show_u64-lacks n c h = digits_lack c _ (emit-All 20 n [] tt) h

digits_from-lt :
    (acc : ℕ) (s : List ℕ) (n : ℕ) → acc < 2 ^ 64 → digits_from acc s ≡ some n → n < 2 ^ 64
unfolding digits_from
digits_from-lt acc [] n h e = ground arith
digits_from-lt acc (c ∷ s) n h e = ground (arith, digits_from-lt (acc * 10 + (c - 48)) s n)

pub parse_u64-lt : (s : List ℕ) (n : ℕ) → parse_u64 s ≡ some n → n < 2 ^ 64
unfolding parse_u64
parse_u64-lt [] n e = cc
parse_u64-lt (c ∷ []) n e = ground (arith, digits_from-lt 0 (c ∷ []) n)
parse_u64-lt (c ∷ d ∷ s) n e =
    ground (arith, digits_from-lt 0 (c ∷ d ∷ s) n, digits_from-lt 0 (d ∷ s) n)
