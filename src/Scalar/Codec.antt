-- ===== src/Scalar/Codec.antt =====
-- `Scalar::encode` and `Scalar::decode` of crates/stratodb/src/data/scalar.rs, and `decode_time` of
-- crates/stratodb/src/datetime.rs.
use stratodb.Base.{
  ℕ, suc, ℤ, List, Option, some, none, Bool, true, false, not, ◌==◌, if◌then◌else◌, be_bytes,
  be_value, to_word, of_word, from_utf8,
}
use stratodb.Error.{SdbResult, ok, err, panic, corrupt}
use stratodb.Crates.{Crates}
use stratodb.Codec.{push, extend, put_bytes, Decode, Reader, ◌>>=◌, pure, lift, array}
use stratodb.Codec
use stratodb.Scalar.Tag
use stratodb.Scalar.{Scalar}

-- `u8::from(b)`.
abbrev pub of_bool : Bool → ℕ
of_bool false = 0
of_bool true = 1

-- `v.to_be_bytes()` of a signed integer of `m + 1` bytes.
abbrev pub int_bytes : ℕ → ℤ → List ℕ
int_bytes m v = be_bytes (suc m) (to_word m v)

-- `uN::from_be_bytes(r.array()?)` and `iN::from_be_bytes(r.array()?)`.
unfoldable pub unsigned : ℕ → Decode ℕ
unfolding array ◌>>=◌ pure
unsigned n = array n >>= λ bs. pure (be_value bs)

unfoldable pub signed : ℕ → Decode ℤ
unfolding array ◌>>=◌ pure
signed m = array (suc m) >>= λ bs. pure (of_word m (be_value bs))

-- `.ok_or_else(|| SdbError::Corrupt(..))`.
abbrev pub or_corrupt : {A : Type 0} → Option A → SdbResult A
or_corrupt (some a) = ok a
or_corrupt none = err corrupt

-- A function of the crate that panics where it has no result.
abbrev pub or_panic : {A : Type 0} → Option A → SdbResult A
or_panic (some a) = ok a
or_panic none = panic

module _ ⦃crates : Crates⦄ where
  open crates use {
    Uuid, NaiveDate, NaiveTime, as_bytes, from_bytes, num_days_from_ce, from_num_days_from_ce_opt,
    num_seconds_from_midnight, nanosecond, from_num_seconds_from_midnight_opt, naive_utc_date,
    naive_utc_time, and_utc, num_seconds, subsec_nanos, seconds_opt, nanoseconds, add_opt,
    TimeDelta,
  }

  unfoldable pub encode : List ℕ → Scalar → List ℕ
  encode buf Scalar.null = push buf Tag.null
  encode buf (Scalar.bool v) = push (push buf Tag.bool) (of_bool v)
  encode buf (Scalar.i8 v) = extend (push buf Tag.i8) (int_bytes 0 v)
  encode buf (Scalar.i16 v) = extend (push buf Tag.i16) (int_bytes 1 v)
  encode buf (Scalar.i32 v) = extend (push buf Tag.i32) (int_bytes 3 v)
  encode buf (Scalar.i64 v) = extend (push buf Tag.i64) (int_bytes 7 v)
  encode buf (Scalar.i128 v) = extend (push buf Tag.i128) (int_bytes 15 v)
  encode buf (Scalar.u8 v) = push (push buf Tag.u8) v
  encode buf (Scalar.u16 v) = extend (push buf Tag.u16) (be_bytes 2 v)
  encode buf (Scalar.u32 v) = extend (push buf Tag.u32) (be_bytes 4 v)
  encode buf (Scalar.u64 v) = extend (push buf Tag.u64) (be_bytes 8 v)
  encode buf (Scalar.u128 v) = extend (push buf Tag.u128) (be_bytes 16 v)
  encode buf (Scalar.f32 v) = extend (push buf Tag.f32) (be_bytes 4 v)
  encode buf (Scalar.f64 v) = extend (push buf Tag.f64) (be_bytes 8 v)
  encode buf (Scalar.str v) = put_bytes (push buf Tag.str) v
  encode buf (Scalar.bytes v) = put_bytes (push buf Tag.bytes) v
  encode buf (Scalar.uuid v) = extend (push buf Tag.uuid) (as_bytes v)
  encode buf (Scalar.date v) = extend (push buf Tag.date) (int_bytes 3 (num_days_from_ce v))
  encode buf (Scalar.time v) =
      extend (extend (push buf Tag.time) (be_bytes 4 (num_seconds_from_midnight v)))
        (be_bytes 4 (nanosecond v))
  encode buf (Scalar.datetime v) =
      let days = int_bytes 3 (num_days_from_ce (naive_utc_date v)) in
      let clock = naive_utc_time v in
      extend
        (extend (extend (push buf Tag.datetime) days)
          (be_bytes 4 (num_seconds_from_midnight clock)))
        (be_bytes 4 (nanosecond clock))
  encode buf (Scalar.duration v) =
      extend (extend (push buf Tag.duration) (int_bytes 7 (num_seconds v)))
        (int_bytes 3 (subsec_nanos v))

  unfoldable pub decode_time : Decode NaiveTime
  unfolding ◌>>=◌ lift
  decode_time = Codec.u32 >>= λ secs.
      Codec.u32 >>= λ nanos. lift (or_corrupt (from_num_seconds_from_midnight_opt secs nanos))

  unfoldable pub decode_date : Decode NaiveDate
  unfolding ◌>>=◌ lift
  decode_date = signed 3 >>= λ days. lift (or_corrupt (from_num_days_from_ce_opt days))

  -- `TimeDelta::seconds(secs)` and `+` panic out of range.
  unfoldable pub decode_duration : Decode TimeDelta
  unfolding ◌>>=◌ lift
  decode_duration = signed 7 >>= λ secs. signed 3 >>= λ nanos.
      lift (or_panic (seconds_opt secs)) >>= λ s. lift (or_panic (add_opt s (nanoseconds nanos)))

  -- The match on the tag.
  unfoldable pub decode_body : ℕ → Decode Scalar
  unfolding ◌>>=◌ pure lift
  decode_body tag =
      if tag == Tag.null
      then pure Scalar.null
      else if tag == Tag.bool
      then (Codec.u8 >>= λ b. pure (Scalar.bool (not (b == 0))))
      else if tag == Tag.i8
      then (signed 0 >>= λ v. pure (Scalar.i8 v))
      else if tag == Tag.i16
      then (signed 1 >>= λ v. pure (Scalar.i16 v))
      else if tag == Tag.i32
      then (signed 3 >>= λ v. pure (Scalar.i32 v))
      else if tag == Tag.i64
      then (signed 7 >>= λ v. pure (Scalar.i64 v))
      else if tag == Tag.i128
      then (signed 15 >>= λ v. pure (Scalar.i128 v))
      else if tag == Tag.u8
      then (Codec.u8 >>= λ v. pure (Scalar.u8 v))
      else if tag == Tag.u16
      then (unsigned 2 >>= λ v. pure (Scalar.u16 v))
      else if tag == Tag.u32
      then (Codec.u32 >>= λ v. pure (Scalar.u32 v))
      else if tag == Tag.u64
      then (Codec.u64 >>= λ v. pure (Scalar.u64 v))
      else if tag == Tag.u128
      then (unsigned 16 >>= λ v. pure (Scalar.u128 v))
      else if tag == Tag.f32
      then (unsigned 4 >>= λ v. pure (Scalar.f32 v))
      else if tag == Tag.f64
      then (unsigned 8 >>= λ v. pure (Scalar.f64 v))
      else if tag == Tag.str
      then (Codec.bytes >>= λ v. lift (or_corrupt (from_utf8 v)) >>= λ s. pure (Scalar.str s))
      else if tag == Tag.bytes
      then (Codec.bytes >>= λ v. pure (Scalar.bytes v))
      else if tag == Tag.uuid
      then (array 16 >>= λ v. pure (Scalar.uuid (from_bytes v)))
      else if tag == Tag.date
      then (decode_date >>= λ v. pure (Scalar.date v))
      else if tag == Tag.time
      then (decode_time >>= λ v. pure (Scalar.time v))
      else if tag == Tag.datetime
      then (decode_date >>= λ d. decode_time >>= λ t. pure (Scalar.datetime (and_utc d t)))
      else if tag == Tag.duration
      then (decode_duration >>= λ v. pure (Scalar.duration v))
      else lift (err corrupt)

  unfoldable pub decode : Decode Scalar
  unfolding ◌>>=◌
  decode = Codec.u8 >>= decode_body
