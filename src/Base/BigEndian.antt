-- ===== src/Base/BigEndian.antt =====
-- Unsigned integers as big-endian bytes: Rust's `to_be_bytes` and `from_be_bytes`.
use Prim.Native.Nat.{ℕ, zero, suc, ◌+◌, ◌*◌, ◌/◌, ◌%◌, ◌^◌, ◌≤◌, ◌<◌, compare}
use mathlib.Core.Path.{◌≡◌, refl, sym, ap, ap₂, ◌∙◌}
use mathlib.Core.List.{List, [], ◌∷◌}
use mathlib.Core.Option.{some}
use native.Mathlib.Nat.{pow-suc, div-add-mod, div-add-mod', mod-lt}
use native.Mathlib.Omega.{arith}
use stratodb.Base.Lists.{All, length}
use stratodb.Base.Lex.{and_then, lex?, IsByte}

-- The `n` bytes of `v`, for `v` below `256 ^ n`.
unfoldable pub be_bytes : ℕ → ℕ → List ℕ
be_bytes zero v = []
be_bytes (suc n) v = (v / 256 ^ n) ∷ be_bytes n (v % 256 ^ n)

unfoldable pub be_value : List ℕ → ℕ
be_value [] = 0
be_value (b ∷ bs) = b * 256 ^ length bs + be_value bs

pow_pos : (n : ℕ) → 0 < 256 ^ n
pow_pos zero = omega arith
pow_pos (suc n) = rw pow-suc (omega (arith, pow_pos n))

pow_step : (n : ℕ) → 256 ^ suc n ≡ 256 ^ n * 256
pow_step n = pow-suc 256 n

-- Facts about a number in base `p`.
module _ (p : ℕ) (pos : 0 < p) where
  high_lt : (v : ℕ) → v < p * 256 → v / p < 256
  high_lt v h = grind (arith, div-add-mod v p)

  high_of : (q r : ℕ) → r < p → (q * p + r) / p ≡ q
  high_of q r h = grind (arith, div-add-mod (q * p + r) p, mod-lt (q * p + r) pos)

  low_of : (q r : ℕ) → r < p → (q * p + r) % p ≡ r
  low_of q r h = grind (arith, div-add-mod (q * p + r) p, high_of q r h)

  mul_gap : (q q' : ℕ) → q < q' → q * p + p ≤ q' * p
  mul_gap q q' h = let gap : suc q * p ≤ q' * p = grind arith in omega (arith, gap)

  compare_digits :
      (q r q' r' : ℕ)
      → r < p
      → r' < p
      → compare (q * p + r) (q' * p + r') ≡ and_then (compare q q') (compare r r')
  compare_digits q r q' r' h h' = ground (arith, mul_gap q q', mul_gap q' q)

pub length-be_bytes : (n v : ℕ) → length (be_bytes n v) ≡ n
unfolding be_bytes
length-be_bytes zero v = refl
length-be_bytes (suc n) v = ap suc (length-be_bytes n _)

pub be_bytes-All : (n v : ℕ) → v < 256 ^ n → All IsByte (be_bytes n v)
unfolding be_bytes
be_bytes-All zero v h = tt
be_bytes-All (suc n) v h =
    (high_lt _ (pow_pos n) v (omega (arith, pow_step n)), be_bytes-All n _ (mod-lt v (pow_pos n)))

pub be_value-be_bytes : (n v : ℕ) → v < 256 ^ n → be_value (be_bytes n v) ≡ v
unfolding be_bytes be_value
be_value-be_bytes zero v h = omega arith
be_value-be_bytes (suc n) v h =
    rw (length-be_bytes, be_value-be_bytes n _ (mod-lt v (pow_pos n)))
      (omega (arith, div-add-mod v (256 ^ n)))

pub be_value-lt : (bs : List ℕ) → All IsByte bs → be_value bs < 256 ^ length bs
unfolding be_value
be_value-lt [] h = omega arith
be_value-lt (b ∷ bs) (h, hs) = grind (arith, pow_step (length bs), be_value-lt bs hs)

pub be_bytes-be_value : (bs : List ℕ) → All IsByte bs → be_bytes (length bs) (be_value bs) ≡ bs
unfolding be_bytes be_value
be_bytes-be_value [] h = refl
be_bytes-be_value (b ∷ bs) (h, hs) =
    let small = be_value-lt bs hs in
    ap₂ ◌∷◌ (high_of _ (pow_pos (length bs)) b _ small) (
      ap (be_bytes (length bs)) (low_of _ (pow_pos (length bs)) b _ small)
      ∙ be_bytes-be_value bs hs)

compare_split :
    (p a b : ℕ) → 0 < p → compare a b ≡ and_then (compare (a / p) (b / p)) (compare (a % p) (b % p))
compare_split p a b h =
    ap₂ compare (sym (div-add-mod' a p)) (sym (div-add-mod' b p))
    ∙ compare_digits p h _ _ _ _ (mod-lt a h) (mod-lt b h)

-- The order of the bytes is the order of the numbers.
pub lex?-be_bytes :
    (n a b : ℕ)
    → a < 256 ^ n
    → b < 256 ^ n
    → lex? (be_bytes n a) (be_bytes n b) ≡ some (compare a b)
unfolding be_bytes lex?
lex?-be_bytes zero a b ha hb = ground arith
lex?-be_bytes (suc n) a b ha hb = ground (
  arith,
  compare_split (256 ^ n) a b (pow_pos n),
  lex?-be_bytes n (a % 256 ^ n) (b % 256 ^ n) (mod-lt a (pow_pos n)) (mod-lt b (pow_pos n)),
)
