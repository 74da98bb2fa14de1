-- ===== src/Index/Ordered.antt =====
-- crates/stratodb/src/index/ordered.rs: the encoding of scalars in index keys, without the optional
-- big-number variants. `&mut Vec<u8>` is a list that is passed on.
pub mod Reference
pub mod Bytes
pub mod Order
use stratodb.Base.{
  ℕ, ◌+◌, ◌-◌, ◌^◌, List, [], ◌∷◌, ◌++◌, Bool, true, false, ℤ, pos, ◌+ℤ◌, scale, length, take, drop,
  map, complement, bit_and, bit_or, bit_xor, ◌==◌, if◌then◌else◌, be_bytes,
}
use stratodb.Crates.{Crates}
use stratodb.Codec.{push, extend}
use stratodb.Scalar.Tag
use stratodb.Scalar.{Scalar}
use stratodb.Scalar.Codec.{int_bytes, of_bool}

-- The first byte of an integer with its sign bit flipped, and the rest. The callers' slices are
-- never empty.
unfoldable pub push_signed : List ℕ → List ℕ → List ℕ
push_signed out [] = out
push_signed out (b ∷ rest) = extend (push out (bit_xor b 0x80)) rest

unfoldable pub signed : List ℕ → ℕ → List ℕ → List ℕ
unfolding push_signed
signed out tag be = push_signed (push out tag) be

unfoldable pub unsigned : List ℕ → ℕ → List ℕ → List ℕ
unsigned out tag be = extend (push out tag) be

-- On the bits of a float of `n` bits, of which the top one is the sign.
unfoldable pub float_bits : ℕ → ℕ → ℕ
float_bits sign bits =
    if bit_and bits (2 ^ sign) == 0 then bit_or bits (2 ^ sign) else 2 ^ (sign + 1) - 1 - bits

unfoldable pub float32 : ℕ → ℕ
unfolding float_bits
float32 bits = float_bits 31 bits

unfoldable pub float64 : ℕ → ℕ
unfolding float_bits
float64 bits = float_bits 63 bits

-- The loop over the bytes.
pub escape : List ℕ → List ℕ → List ℕ
escape out [] = out
escape out (byte ∷ rest) =
    escape (if byte == 0x00 then push (push out byte) 0xFF else push out byte) rest

unfoldable pub ordered_bytes : List ℕ → List ℕ → List ℕ
unfolding escape
ordered_bytes out bytes = push (push (escape out bytes) 0x00) 0x01

module _ ⦃crates : Crates⦄ where
  open crates use {
    as_bytes, num_days_from_ce, num_seconds_from_midnight, nanosecond, naive_utc_date,
    naive_utc_time, num_seconds, subsec_nanos, TimeDelta,
  }

  -- `i128::from(v.num_seconds()) * 1_000_000_000 + i128::from(v.subsec_nanos())`, which fits.
  unfoldable pub total_nanos : TimeDelta → ℤ
  total_nanos v = scale 1_000_000_000 (num_seconds v) +ℤ subsec_nanos v

  unfoldable pub encode_ascending : List ℕ → Scalar → List ℕ
  unfolding push_signed signed unsigned float32 float64 ordered_bytes total_nanos
  encode_ascending out Scalar.null = push out Tag.null
  encode_ascending out (Scalar.bool v) = push (push out Tag.bool) (of_bool v)
  encode_ascending out (Scalar.i8 v) = signed out Tag.i8 (int_bytes 0 v)
  encode_ascending out (Scalar.i16 v) = signed out Tag.i16 (int_bytes 1 v)
  encode_ascending out (Scalar.i32 v) = signed out Tag.i32 (int_bytes 3 v)
  encode_ascending out (Scalar.i64 v) = signed out Tag.i64 (int_bytes 7 v)
  encode_ascending out (Scalar.i128 v) = signed out Tag.i128 (int_bytes 15 v)
  encode_ascending out (Scalar.u8 v) = push (push out Tag.u8) v
  encode_ascending out (Scalar.u16 v) = unsigned out Tag.u16 (be_bytes 2 v)
  encode_ascending out (Scalar.u32 v) = unsigned out Tag.u32 (be_bytes 4 v)
  encode_ascending out (Scalar.u64 v) = unsigned out Tag.u64 (be_bytes 8 v)
  encode_ascending out (Scalar.u128 v) = unsigned out Tag.u128 (be_bytes 16 v)
  encode_ascending out (Scalar.f32 v) = unsigned out Tag.f32 (be_bytes 4 (float32 v))
  encode_ascending out (Scalar.f64 v) = unsigned out Tag.f64 (be_bytes 8 (float64 v))
  encode_ascending out (Scalar.str v) = ordered_bytes (push out Tag.str) v
  encode_ascending out (Scalar.bytes v) = ordered_bytes (push out Tag.bytes) v
  encode_ascending out (Scalar.uuid v) = extend (push out Tag.uuid) (as_bytes v)
  encode_ascending out (Scalar.date v) = signed out Tag.date (int_bytes 3 (num_days_from_ce v))
  encode_ascending out (Scalar.time v) =
      extend (extend (push out Tag.time) (be_bytes 4 (num_seconds_from_midnight v)))
        (be_bytes 4 (nanosecond v))
  encode_ascending out (Scalar.datetime v) =
      let clock = naive_utc_time v in
      let days = int_bytes 3 (num_days_from_ce (naive_utc_date v)) in
      extend
        (extend (push_signed (push out Tag.datetime) days)
          (be_bytes 4 (num_seconds_from_midnight clock)))
        (be_bytes 4 (nanosecond clock))
  encode_ascending out (Scalar.duration v) = signed out Tag.duration (int_bytes 15 (total_nanos v))

  -- The bytes just written are inverted for a descending column.
  unfoldable pub encode_scalar : List ℕ → Scalar → Bool → List ℕ
  unfolding encode_ascending
  encode_scalar out scalar descending =
      let start = length out in
      let written = encode_ascending out scalar in
      if descending then take start written ++ map complement (drop start written) else written
