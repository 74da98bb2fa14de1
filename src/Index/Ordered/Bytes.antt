-- ===== src/Index/Ordered/Bytes.antt =====
-- The parts of a key: what each appends, and how its bytes compare.
use stratodb.Base.{
  ℕ, suc, ◌+◌, ◌-◌, ◌*◌, ◌/◌, ◌%◌, ◌^◌, ◌<◌, ◌≡◌, refl, ap, ◌∙◌, List, [], ◌∷◌, ◌++◌, append_assoc,
  some, All, IsByte, map, compare, lex, lex?, ltb, ◌==◌, if◌then◌else◌, arith, ℤ, pos, negsuc,
  compareℤ, compare-biased, biased, biased-lt, IsInt, to_word, be_bytes, lex?-be_bytes, bit_and,
  bit_xor, ltb→lt, ==_iff, Bool-cases, inl, inr,
}
use native.Mathlib.Nat.{
  add_comm, mul_comm, add-mul-div_left, add-mul-mod_self_left, div-add-mod, pow-suc, div-eq_of_lt,
  div-eq_of_lt-le,
}
use native.Mathlib.Numerals.{add-one}
use stratodb.Base.Bits.{bit_and_pow, bit_or_pow, flip_top}
use stratodb.Scalar.Codec.{int_bytes}
use stratodb.Index.Ordered.{push_signed, float_bits, ordered_bytes}
use stratodb.Index.Ordered.Reference.{lexℤ, float_rank}

-- Texts.
abbrev pub escaped : List ℕ → List ℕ
escaped [] = 0x00 ∷ 0x01 ∷ []
escaped (b ∷ bs) = if b == 0x00 then 0x00 ∷ 0xFF ∷ escaped bs else b ∷ escaped bs

pub ordered_bytes-escaped : (out bytes : List ℕ) → ordered_bytes out bytes ≡ out ++ escaped bytes
unfolding ordered_bytes
ordered_bytes-escaped out [] = append_assoc out (0x00 ∷ []) (0x01 ∷ [])
ordered_bytes-escaped out (b ∷ bs) = elim (Bool-cases (b == 0)) [
  | inl e ↦
      let zeroed = (==_iff b 0).0 e in
      rw (e, zeroed)
        (ordered_bytes-escaped ((out ++ 0 ∷ []) ++ 255 ∷ []) bs
          ∙ append_assoc (out ++ 0 ∷ []) (255 ∷ []) (escaped bs)
          ∙ append_assoc out (0 ∷ []) (255 ∷ escaped bs))
  | inr e ↦ rw e (ordered_bytes-escaped (out ++ b ∷ []) bs ∙ append_assoc out (b ∷ []) (escaped bs))
]

pub lex?-escaped : (x y : List ℕ) → lex? (escaped x) (escaped y) ≡ some (lex x y)
unfolding lex? lex
lex?-escaped [] [] = refl
lex?-escaped [] (b ∷ y) = ground arith
lex?-escaped (a ∷ x) [] = ground arith
lex?-escaped (a ∷ x) (b ∷ y) = ground (arith, lex?-escaped x y)

pub lexℤ-pos : (x y : List ℕ) → lexℤ (map pos x) (map pos y) ≡ lex x y
unfolding lexℤ lex
lexℤ-pos [] [] = refl
lexℤ-pos [] (b ∷ y) = refl
lexℤ-pos (a ∷ x) [] = refl
lexℤ-pos (a ∷ x) (b ∷ y) = rw (lexℤ-pos x y)

pub escaped-All : (x : List ℕ) → All IsByte x → All IsByte (escaped x)
escaped-All [] h = omega arith
escaped-All (b ∷ x) (h, hs) = ground (arith, escaped-All x hs)

-- Signed integers: flipping the sign bit moves the integer up by half the range.
module _ (p u : ℕ) (small : u < 128 * p) where
  base_pos : 0 < p
  base_pos = grind arith

  high_small : u / p < 128
  high_small = grind (arith, div-add-mod u p)

  high_moved : (128 * p + u) / p ≡ u / p + 128
  high_moved = rw (add_comm (128 * p) u, mul_comm 128 p) (add-mul-div_left u 128 base_pos)

  low_moved : (128 * p + u) % p ≡ u % p
  low_moved = rw (add_comm (128 * p) u, mul_comm 128 p) (add-mul-mod_self_left u p 128)

flip_low : (b : ℕ) → b < 128 → bit_xor b 0x80 ≡ b + 128
flip_low b h = ground (arith, flip_top b)

flip_high : (b : ℕ) → b < 128 → bit_xor (b + 128) 0x80 ≡ b
flip_high b h = ground (arith, flip_top (b + 128))

pub push_signed-biased :
    (out : List ℕ) (m : ℕ) (v : ℤ)
    → IsInt m v
    → push_signed out (int_bytes m v) ≡ out ++ be_bytes (suc m) (biased m v)
unfolding push_signed be_bytes to_word biased
push_signed-biased out m (pos k) h =
    let p = 256 ^ m in
    rw (flip_low (k / p) (high_small p k h), high_moved p k h, low_moved p k h)
      (append_assoc out ((k / p + 128) ∷ []) (be_bytes m (k % p)))
push_signed-biased out m (negsuc k) h =
    let p = 256 ^ m in
    let u = 128 * p - 1 - k in
    let small : u < 128 * p = omega arith in
    let word : 256 * p - 1 - k ≡ 128 * p + u = omega arith in
    rw (word, high_moved p u small, low_moved p u small, flip_high (u / p) (high_small p u small))
      (append_assoc out ((u / p) ∷ []) (be_bytes m (u % p)))

pub lex?-biased :
    (m : ℕ) (v w : ℤ)
    → IsInt m v
    → IsInt m w
    → lex? (be_bytes (suc m) (biased m v)) (be_bytes (suc m) (biased m w)) ≡ some (compareℤ v w)
lex?-biased m v w hv hw =
    lex?-be_bytes (suc m) _ _ (biased-lt m v hv) (biased-lt m w hw)
    ∙ ap some (compare-biased m v w hv hw)

-- Floats.
float_key : ℕ → ℕ → ℕ
float_key sign bits = if ltb bits (2 ^ sign) then bits + 2 ^ sign else 2 ^ (sign + 1) - 1 - bits

double : (s : ℕ) → 2 ^ (s + 1) ≡ 2 * 2 ^ s
double s = rw add-one (omega (arith, pow-suc 2 s))

float_key-lt : (sign bits : ℕ) → bits < 2 ^ (sign + 1) → float_key sign bits < 2 ^ (sign + 1)
unfolding float_key
float_key-lt sign bits h = ground (arith, double sign)

float_bits-key :
    (sign bits : ℕ) → bits < 2 ^ (sign + 1) → float_bits sign bits ≡ float_key sign bits
unfolding float_bits float_key
float_bits-key sign bits h = elim (Bool-cases (ltb bits (2 ^ sign))) [
  | inl low ↦
      let zero_top : bits / 2 ^ sign ≡ 0 = div-eq_of_lt (ltb→lt _ _ low) in
      let unset : bits / 2 ^ sign % 2 ≡ 0 = rw zero_top in
      let clear : bit_and bits (2 ^ sign) ≡ 0 = rw (bit_and_pow sign bits, unset) (omega arith) in
      ground (arith, clear, bit_or_pow sign bits unset)
  | inr high ↦
      let one_top : bits / 2 ^ sign ≡ 1 =
        div-eq_of_lt-le {k = 1} (2 ^ sign) (ground arith) (omega (arith, double sign)) in
      let top : bit_and bits (2 ^ sign) ≡ 2 ^ sign =
        rw (bit_and_pow sign bits, one_top) (omega arith) in
      ground (arith, top, double sign)
]

compare-float_key :
    (sign a b : ℕ)
    → a < 2 ^ (sign + 1)
    → b < 2 ^ (sign + 1)
    → compare (float_key sign a) (float_key sign b)
      ≡ compareℤ (float_rank sign a) (float_rank sign b)
unfolding float_key float_rank
compare-float_key sign a b ha hb = ground (arith, double sign)

pub lex?-float :
    (n sign a b : ℕ)
    → 256 ^ n ≡ 2 ^ (sign + 1)
    → a < 256 ^ n
    → b < 256 ^ n
    → lex? (be_bytes n (float_bits sign a)) (be_bytes n (float_bits sign b))
      ≡ some (compareℤ (float_rank sign a) (float_rank sign b))
lex?-float n sign a b e ha hb =
    let ha' : a < 2 ^ (sign + 1) = omega (arith, e) in
    let hb' : b < 2 ^ (sign + 1) = omega (arith, e) in
    rw (float_bits-key sign a ha', float_bits-key sign b hb')
      (lex?-be_bytes n _ _ (omega (arith, e, float_key-lt sign a ha'))
          (omega (arith, e, float_key-lt sign b hb'))
        ∙ ap some (compare-float_key sign a b ha' hb'))

pub float_bits-lt :
    (n sign a : ℕ) → 256 ^ n ≡ 2 ^ (sign + 1) → a < 256 ^ n → float_bits sign a < 256 ^ n
float_bits-lt n sign a e h =
    let h' : a < 2 ^ (sign + 1) = omega (arith, e) in
    rw (float_bits-key sign a h', e) (float_key-lt sign a h')
