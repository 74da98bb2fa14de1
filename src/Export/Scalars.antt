-- ===== src/Export/Scalars.antt =====
-- crates/stratodb/src/export/scalar.rs without the optional big-number variants. What the standard
-- library, uuid and chrono print of a float, an id and a time is an argument.

use stratodb.Base.{
  ℕ, zero, suc, ◌+◌, ◌/◌, ◌%◌, ◌^◌, [], ◌∷◌, ◌++◌, ltb, ◌==◌, ◌||◌, Bool, true, false,
  if◌then◌else◌, Text, ℤ, pos, negsuc,
}
use stratodb.Crates.{Crates}
use stratodb.Scalar.{Scalar}
use stratodb.Export.Base64
use stratodb.Export.Quote.{quote}

-- The digits of a number, lowest last; a u128 has at most 39.
unfoldable pub emit : ℕ → ℕ → Text → Text
emit zero n tail = tail
emit (suc fuel) n tail =
    let here = (48 + n % 10) ∷ tail in
    let rest = emit fuel (n / 10) here in if ltb n 10 then here else rest

unfoldable pub show_unsigned : ℕ → Text
unfolding emit
show_unsigned n = emit 39 n []

unfoldable pub show_signed : ℤ → Text
unfolding show_unsigned
show_signed (pos n) = show_unsigned n
show_signed (negsuc n) = 45 ∷ show_unsigned (n + 1)

-- `v.is_finite()`: the bits of the exponent are not all set.
abbrev pub is_finite32 : ℕ → Bool
is_finite32 v = ltb (v / 2 ^ 23 % 2 ^ 8) 255

abbrev pub is_finite64 : ℕ → Bool
is_finite64 v = ltb (v / 2 ^ 52 % 2 ^ 11) 2047

-- `unsigned_abs`, and the test of the sign.
abbrev pub magnitude : ℤ → ℕ
magnitude (pos n) = n
magnitude (negsuc n) = n + 1

abbrev pub is_negative : ℤ → Bool
is_negative (pos n) = false
is_negative (negsuc n) = true

-- `{:09}`.
unfoldable pub nine_digits : ℕ → ℕ → Text → Text
nine_digits zero n tail = tail
nine_digits (suc left) n tail = nine_digits left (n / 10) ((48 + n % 10) ∷ tail)

-- `trim_end_matches('0')`.
unfoldable pub trim_zeros : Text → Text
trim_zeros [] = []
trim_zeros (c ∷ s) = elim (trim_zeros s) [
  | [] ↦ if c == 48 then [] else c ∷ []
  | (d ∷ rest) ↦ c ∷ d ∷ rest
]

-- "null", "true" and "false".
abbrev pub null_text : Text
null_text = 110 ∷ 117 ∷ 108 ∷ 108 ∷ []

abbrev pub true_text : Text
true_text = 116 ∷ 114 ∷ 117 ∷ 101 ∷ []

abbrev pub false_text : Text
false_text = 102 ∷ 97 ∷ 108 ∷ 115 ∷ 101 ∷ []

module _ ⦃crates : Crates⦄ where
  open crates use {Uuid, NaiveDate, NaiveTime, DateTime, TimeDelta, num_seconds, subsec_nanos}

  -- `Display` of the floats, of uuid and of chrono, and `to_rfc3339`.
  pub record Displays : Type 0 where
    pub float32 : ℕ → Text
    pub float64 : ℕ → Text
    pub uuid : Uuid → Text
    pub date : NaiveDate → Text
    pub time : NaiveTime → Text
    pub datetime : DateTime → Text

  unfoldable pub duration_seconds : TimeDelta → Text
  unfolding show_signed show_unsigned nine_digits trim_zeros
  duration_seconds d =
      let secs = num_seconds d in
      let nanos = subsec_nanos d in
      if magnitude nanos == 0
      then show_signed secs
      else (let sign = if is_negative secs || is_negative nanos then 45 ∷ [] else [] in
          sign
          ++ (show_unsigned (magnitude secs)
              ++ 46 ∷ trim_zeros (nine_digits 9 (magnitude nanos) [])))

  unfoldable pub write_scalar : Displays → Text → Scalar → Text
  unfolding show_signed show_unsigned duration_seconds quote Base64.encode
  write_scalar show out Scalar.null = out ++ null_text
  write_scalar show out (Scalar.bool true) = out ++ true_text
  write_scalar show out (Scalar.bool false) = out ++ false_text
  write_scalar show out (Scalar.i8 v) = out ++ show_signed v
  write_scalar show out (Scalar.i16 v) = out ++ show_signed v
  write_scalar show out (Scalar.i32 v) = out ++ show_signed v
  write_scalar show out (Scalar.i64 v) = out ++ show_signed v
  write_scalar show out (Scalar.i128 v) = out ++ show_signed v
  write_scalar show out (Scalar.u8 v) = out ++ show_unsigned v
  write_scalar show out (Scalar.u16 v) = out ++ show_unsigned v
  write_scalar show out (Scalar.u32 v) = out ++ show_unsigned v
  write_scalar show out (Scalar.u64 v) = out ++ show_unsigned v
  write_scalar show out (Scalar.u128 v) = out ++ show_unsigned v
  write_scalar show out (Scalar.f32 v) =
      out ++ (if is_finite32 v then show.float32 v else null_text)
  write_scalar show out (Scalar.f64 v) =
      out ++ (if is_finite64 v then show.float64 v else null_text)
  write_scalar show out (Scalar.str v) = quote out v
  write_scalar show out (Scalar.bytes v) = quote out (Base64.encode v)
  write_scalar show out (Scalar.uuid v) = quote out (show.uuid v)
  write_scalar show out (Scalar.date v) = quote out (show.date v)
  write_scalar show out (Scalar.time v) = quote out (show.time v)
  write_scalar show out (Scalar.datetime v) = quote out (show.datetime v)
  write_scalar show out (Scalar.duration v) = out ++ duration_seconds v
