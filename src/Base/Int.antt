-- ===== src/Base/Int.antt =====
-- Signed integers, and the two's complement words of `n` bytes that they are stored as.
use Prim.Native.Nat.{ℕ, suc, ◌+◌, ◌-◌, ◌*◌, ◌^◌, ◌<◌, compare, Ordering}
use mathlib.Core.Path.{◌≡◌}
use native.Mathlib.Nat.{pow-suc}
use native.Mathlib.Omega.{arith}
use stratodb.Base.Tests.{ltb, leb, if◌then◌else◌}

-- `negsuc n` is -(n + 1).
pub data ℤ : Type 0 where
  pos : ℕ → ℤ
  negsuc : ℕ → ℤ

abbrev pub compareℤ : ℤ → ℤ → Ordering
compareℤ (pos a) (pos b) = compare a b
compareℤ (pos a) (negsuc b) = Ordering.gt
compareℤ (negsuc a) (pos b) = Ordering.lt
compareℤ (negsuc a) (negsuc b) = compare b a

-- a - b, as an integer.
abbrev pub sub_ℕ : ℕ → ℕ → ℤ
sub_ℕ a b = if leb b a then pos (a - b) else negsuc (b - a - 1)

abbrev pub pos_part : ℤ → ℕ
pos_part (pos n) = n
pos_part (negsuc n) = 0

abbrev pub neg_part : ℤ → ℕ
neg_part (pos n) = 0
neg_part (negsuc n) = suc n

infixl 65 ◌+ℤ◌
unfoldable pub ◌+ℤ◌ : ℤ → ℤ → ℤ
a +ℤ b = sub_ℕ (pos_part a + pos_part b) (neg_part a + neg_part b)

-- A multiple of an integer.
unfoldable pub scale : ℕ → ℤ → ℤ
scale k a = sub_ℕ (k * pos_part a) (k * neg_part a)

-- A signed integer of `m + 1` bytes.
abbrev pub IsInt : ℕ → ℤ → Type 0
IsInt m (pos k) = k < 128 * 256 ^ m
IsInt m (negsuc k) = k < 128 * 256 ^ m

-- The word that stores a signed integer of `m + 1` bytes, and the integer that a word stands for.
unfoldable pub to_word : ℕ → ℤ → ℕ
to_word m (pos k) = k
to_word m (negsuc k) = 256 * 256 ^ m - 1 - k

unfoldable pub of_word : ℕ → ℕ → ℤ
of_word m w = if ltb w (128 * 256 ^ m) then pos w else negsuc (256 * 256 ^ m - 1 - w)

-- The integer moved up by half the range, so that its order is that of ℕ.
unfoldable pub biased : ℕ → ℤ → ℕ
biased m (pos k) = 128 * 256 ^ m + k
biased m (negsuc k) = 128 * 256 ^ m - 1 - k

pub of_word-to_word : (m : ℕ) (v : ℤ) → IsInt m v → of_word m (to_word m v) ≡ v
unfolding of_word to_word
of_word-to_word m (pos k) h = ground arith
of_word-to_word m (negsuc k) h = ground arith

pub to_word-lt : (m : ℕ) (v : ℤ) → IsInt m v → to_word m v < 256 ^ suc m
unfolding to_word
to_word-lt m (pos k) h = omega (arith, pow-suc 256 m)
to_word-lt m (negsuc k) h = omega (arith, pow-suc 256 m)

pub biased-lt : (m : ℕ) (v : ℤ) → IsInt m v → biased m v < 256 ^ suc m
unfolding biased
biased-lt m (pos k) h = omega (arith, pow-suc 256 m)
biased-lt m (negsuc k) h = omega (arith, pow-suc 256 m)

pub compare-biased :
    (m : ℕ) (a b : ℤ) → IsInt m a → IsInt m b → compare (biased m a) (biased m b) ≡ compareℤ a b
unfolding biased
compare-biased m (pos a) (pos b) h k = ground arith
compare-biased m (pos a) (negsuc b) h k = ground arith
compare-biased m (negsuc a) (pos b) h k = ground arith
compare-biased m (negsuc a) (negsuc b) h k = ground arith

-- Seconds of 64 bits in nanoseconds, and a rest of 32 bits, fit in 128 bits.
pub scale_add-IsInt : (a b : ℤ) → IsInt 7 a → IsInt 3 b → IsInt 15 (scale 1_000_000_000 a +ℤ b)
unfolding scale ◌+ℤ◌
scale_add-IsInt (pos a) (pos b) h k = ground arith
scale_add-IsInt (pos a) (negsuc b) h k = ground arith
scale_add-IsInt (negsuc a) (pos b) h k = ground arith
scale_add-IsInt (negsuc a) (negsuc b) h k = ground arith
