-- ===== src/Base/Bits.antt =====
-- One bit of a number, tested or set: `x & (1 << k)`, `x | (1 << k)`, and `b ^ 0x80` on a byte.
use Prim.Native.Nat.{
  ℕ, zero, suc, ◌+◌, ◌-◌, ◌*◌, ◌/◌, ◌%◌, ◌^◌, ◌≤◌, ◌<◌, min, max, bit_and, bit_or, bit_xor, digits,
  bit_and-bitwise, bit_or-bitwise,
}
use mathlib.Core.Path.{◌≡◌, refl, sym, ap, ◌∙◌}
use mathlib.Core.Bool.{true}
use native.Mathlib.Nat.{pow-suc, pow-succ', zero-div, div-div-eq-div-mul}
use native.Mathlib.Omega.{arith}
use stratodb.Base.Tests.{◌==◌, ==_iff, ltb, if◌then◌else◌, all_below, all_below_sound}

-- The recursion on digits does not depend on its fuel, if that is enough.
module _ (z : ℕ → ℕ) (f : ℕ → ℕ → ℕ) where
  digits-fuel : (n m a b : ℕ) → a ≤ n → a ≤ m → digits z f n a b ≡ digits z f m a b
  digits-fuel zero zero a b p q = refl
  digits-fuel zero (suc m) zero b p q = refl
  digits-fuel zero (suc m) (suc a) b p q = absurd (omega arith)
  digits-fuel (suc n) zero zero b p q = refl
  digits-fuel (suc n) zero (suc a) b p q = absurd (omega arith)
  digits-fuel (suc n) (suc m) zero b p q = refl
  digits-fuel (suc n) (suc m) (suc a) b p q =
      ap (λ t. t * 2 + f (suc a % 2) (b % 2))
        (digits-fuel n m (suc a / 2) (b / 2) (omega arith) (omega arith))

  digits-step :
      (a b : ℕ)
      → digits z f (suc a) (suc a) b
        ≡ digits z f (suc a / 2) (suc a / 2) (b / 2) * 2 + f (suc a % 2) (b % 2)
  digits-step a b =
      ap (λ t. t * 2 + f (suc a % 2) (b % 2))
        (digits-fuel a (suc a / 2) (suc a / 2) (b / 2) (omega arith) (omega arith))

and_step : (a b : ℕ) → bit_and (suc a) b ≡ bit_and (suc a / 2) (b / 2) * 2 + min (suc a % 2) (b % 2)
and_step a b = omega (
  arith,
  bit_and-bitwise (suc a) b,
  bit_and-bitwise (suc a / 2) (b / 2),
  digits-step (λ b. zero) min a b,
)

or_step : (a b : ℕ) → bit_or (suc a) b ≡ bit_or (suc a / 2) (b / 2) * 2 + max (suc a % 2) (b % 2)
or_step a b = omega (
  arith,
  bit_or-bitwise (suc a) b,
  bit_or-bitwise (suc a / 2) (b / 2),
  digits-step (λ b. b) max a b,
)

and_none : (n a : ℕ) → a ≤ n → bit_and a 0 ≡ 0
and_none n zero h = refl
and_none zero (suc a) h = absurd (omega arith)
and_none (suc n) (suc a) h = omega (arith, and_step a 0, and_none n (suc a / 2) (omega arith))

or_none : (n a : ℕ) → a ≤ n → bit_or a 0 ≡ a
or_none n zero h = refl
or_none zero (suc a) h = absurd (omega arith)
or_none (suc n) (suc a) h = omega (arith, or_step a 0, or_none n (suc a / 2) (omega arith))

bit_of_half : (a k : ℕ) → a / 2 / 2 ^ k ≡ a / 2 ^ suc k
bit_of_half a k = div-div-eq-div-mul a 2 (2 ^ k) ∙ ap (λ t. a / t) (sym (pow-succ' 2 k))

half_pow : (k : ℕ) → 2 ^ suc k / 2 ≡ 2 ^ k
half_pow k = omega (arith, pow-suc 2 k)

-- `a & (1 << k)`.
pub bit_and_pow : (k a : ℕ) → bit_and a (2 ^ k) ≡ a / 2 ^ k % 2 * 2 ^ k
bit_and_pow k zero =
    omega (arith, bit_and-bitwise 0 (2 ^ k), ap (λ t. t % 2 * 2 ^ k) (zero-div (2 ^ k)))
bit_and_pow zero (suc a) =
    omega (arith, and_step a 1, and_none (suc a / 2) (suc a / 2) (omega arith))
bit_and_pow (suc k) (suc a) = omega (
  arith,
  rw (half_pow k, bit_and_pow k (suc a / 2), bit_of_half (suc a) k) at (and_step a (2 ^ suc k)),
  ap (λ t. suc a / 2 ^ suc k % 2 * t) (pow-suc 2 k),
  pow-suc 2 k,
)

-- `a | (1 << k)`, where that bit is not set.
pub bit_or_pow : (k a : ℕ) → a / 2 ^ k % 2 ≡ 0 → bit_or a (2 ^ k) ≡ a + 2 ^ k
bit_or_pow k zero h = omega (arith, bit_or-bitwise 0 (2 ^ k))
bit_or_pow zero (suc a) h =
    omega (arith, or_step a 1, or_none (suc a / 2) (suc a / 2) (omega arith))
bit_or_pow (suc k) (suc a) h =
    let below = rw (← bit_of_half (suc a) k) at h in
    omega (
      arith,
      rw (half_pow k, bit_or_pow k (suc a / 2) below) at (or_step a (2 ^ suc k)),
      pow-suc 2 k,
    )

flip_table : all_below (λ b. bit_xor b 0x80 == (if ltb b 128 then b + 128 else b - 128)) 256 ≡ true
unfolding all_below
flip_table = refl

-- `b ^ 0x80` on a byte.
pub flip_top : (b : ℕ) → b < 256 → bit_xor b 0x80 ≡ (if ltb b 128 then b + 128 else b - 128)
flip_top b h = (==_iff _ _).0 (all_below_sound _ 256 b flip_table h)
