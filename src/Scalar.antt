-- ===== src/Scalar.antt =====
-- crates/stratodb/src/data/scalar.rs without the optional big-number variants. A float is its bits,
-- a text its UTF-8 bytes.
pub mod Tag
pub mod Codec
pub mod RoundTrip
pub mod Safety
use Prim.Native.String.{String}
use stratodb.Base.{ℕ, ℤ, Text, List, Bool, ◌<◌, ◌^◌, ◌≡◌, true, is_utf8, length, IsByte, IsInt, All}
use stratodb.Crates.{Crates, IsPlainTime}

module _ ⦃crates : Crates⦄ where
  open crates use {Uuid, NaiveDate, NaiveTime, DateTime, TimeDelta, naive_utc_time}

  pub data Scalar : Type 0 where
    null : Scalar
    bool : Bool → Scalar
    i8 i16 i32 i64 i128 : ℤ → Scalar
    u8 u16 u32 u64 u128 : ℕ → Scalar
    f32 f64 : ℕ → Scalar
    str : Text → Scalar
    bytes : List ℕ → Scalar
    uuid : Uuid → Scalar
    date : NaiveDate → Scalar
    time : NaiveTime → Scalar
    datetime : DateTime → Scalar
    duration : TimeDelta → Scalar

  pub type_str : Scalar → String
  type_str null = "null"
  type_str (bool v) = "bool"
  type_str (i8 v) = "i8"
  type_str (i16 v) = "i16"
  type_str (i32 v) = "i32"
  type_str (i64 v) = "i64"
  type_str (i128 v) = "i128"
  type_str (u8 v) = "u8"
  type_str (u16 v) = "u16"
  type_str (u32 v) = "u32"
  type_str (u64 v) = "u64"
  type_str (u128 v) = "u128"
  type_str (f32 v) = "f32"
  type_str (f64 v) = "f64"
  type_str (str v) = "str"
  type_str (bytes v) = "bytes"
  type_str (uuid v) = "uuid"
  type_str (date v) = "date"
  type_str (time v) = "time"
  type_str (datetime v) = "datetime"
  type_str (duration v) = "duration"

  -- What the Rust types guarantee of a payload.
  abbrev pub IsWellTyped : Scalar → Type 0
  IsWellTyped (i8 v) = IsInt 0 v
  IsWellTyped (i16 v) = IsInt 1 v
  IsWellTyped (i32 v) = IsInt 3 v
  IsWellTyped (i64 v) = IsInt 7 v
  IsWellTyped (i128 v) = IsInt 15 v
  IsWellTyped (u8 v) = v < 256
  IsWellTyped (u16 v) = v < 256 ^ 2
  IsWellTyped (u32 v) = v < 256 ^ 4
  IsWellTyped (u64 v) = v < 256 ^ 8
  IsWellTyped (u128 v) = v < 256 ^ 16
  IsWellTyped (f32 v) = v < 256 ^ 4
  IsWellTyped (f64 v) = v < 256 ^ 8
  IsWellTyped (str v) = All IsByte v × (is_utf8 v ≡ true)
  IsWellTyped (bytes v) = All IsByte v
  IsWellTyped _ = Unit

  -- What a stored scalar must also be to be read back: a text or byte string of less than 2^32
  -- bytes, and no leap second but in the last second of a minute.
  abbrev pub IsStorable : Scalar → Type 0
  IsStorable (str v) = length v < 2 ^ 32
  IsStorable (bytes v) = length v < 2 ^ 32
  IsStorable (time v) = IsPlainTime v
  IsStorable (datetime v) = IsPlainTime (naive_utc_time v)
  IsStorable _ = Unit
