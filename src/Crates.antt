-- ===== src/Crates.antt =====
-- What the code uses of the uuid and chrono crates, as documented: a type for each of theirs, the
-- functions that are called, and the laws that the code relies on.
use Prim.Native.Nat.{◌%◌}
use stratodb.Base.{
  ℕ, ◌^◌, ◌<◌, ◌≡◌, ◌⊎◌, List, Option, some, length, All, IsByte, ℤ, IsInt, be_bytes,
}

-- `[u8; N]`.
abbrev pub IsArray : ℕ → List ℕ → Type 0
IsArray n bytes = (length bytes ≡ n) × All IsByte bytes

pub record Crates : Type 1 where
  -- uuid::Uuid
  pub Uuid : Type 0
  pub as_bytes : Uuid → List ℕ
  pub from_bytes : List ℕ → Uuid
  pub as_bytes-IsArray : (u : Uuid) → IsArray 16 (as_bytes u)
  pub from_bytes-as_bytes : (u : Uuid) → from_bytes (as_bytes u) ≡ u
  pub as_bytes-from_bytes :
      (bytes : List ℕ) → IsArray 16 bytes → as_bytes (from_bytes bytes) ≡ bytes
  pub nil : Uuid
  pub as_bytes-nil : as_bytes nil ≡ be_bytes 16 0
  pub from_u128 : ℕ → Uuid
  pub as_bytes-from_u128 : (n : ℕ) → n < 2 ^ 128 → as_bytes (from_u128 n) ≡ be_bytes 16 n
  -- chrono::NaiveDate
  pub NaiveDate : Type 0
  pub num_days_from_ce : NaiveDate → ℤ
  pub from_num_days_from_ce_opt : ℤ → Option NaiveDate
  pub num_days-IsInt : (d : NaiveDate) → IsInt 3 (num_days_from_ce d)
  pub from_num_days-num_days :
      (d : NaiveDate) → from_num_days_from_ce_opt (num_days_from_ce d) ≡ some d
  -- chrono::NaiveTime; a nanosecond of 10^9 or more is a leap second, which the constructor takes
  -- only in the last second of a minute
  pub NaiveTime : Type 0
  pub num_seconds_from_midnight : NaiveTime → ℕ
  pub nanosecond : NaiveTime → ℕ
  pub from_num_seconds_from_midnight_opt : ℕ → ℕ → Option NaiveTime
  pub num_seconds-lt : (t : NaiveTime) → num_seconds_from_midnight t < 86_400
  pub nanosecond-lt : (t : NaiveTime) → nanosecond t < 2_000_000_000
  pub from_num_seconds-num_seconds :
      (t : NaiveTime)
      → (nanosecond t < 1_000_000_000) ⊎ (num_seconds_from_midnight t % 60 ≡ 59)
      → from_num_seconds_from_midnight_opt (num_seconds_from_midnight t) (nanosecond t) ≡ some t
  -- chrono::DateTime<Utc>: its date and time in UTC
  pub DateTime : Type 0
  pub naive_utc_date : DateTime → NaiveDate
  pub naive_utc_time : DateTime → NaiveTime
  pub and_utc : NaiveDate → NaiveTime → DateTime
  pub and_utc-naive_utc : (d : DateTime) → and_utc (naive_utc_date d) (naive_utc_time d) ≡ d
  -- chrono::TimeDelta; `add` is `+`, and a sum out of range panics
  pub TimeDelta : Type 0
  pub num_seconds : TimeDelta → ℤ
  pub subsec_nanos : TimeDelta → ℤ
  pub seconds_opt : ℤ → Option TimeDelta
  pub nanoseconds : ℤ → TimeDelta
  pub add_opt : TimeDelta → TimeDelta → Option TimeDelta
  pub num_seconds-IsInt : (d : TimeDelta) → IsInt 7 (num_seconds d)
  pub subsec_nanos-IsInt : (d : TimeDelta) → IsInt 3 (subsec_nanos d)
  pub seconds-num_seconds :
      (d : TimeDelta)
      → (s : TimeDelta) × (seconds_opt (num_seconds d) ≡ some s)
        × (add_opt s (nanoseconds (subsec_nanos d)) ≡ some d)

module _ ⦃crates : Crates⦄ where
  open crates use {NaiveTime, nanosecond, num_seconds_from_midnight}

  -- A time that the constructor takes back.
  abbrev pub IsPlainTime : NaiveTime → Type 0
  IsPlainTime t = (nanosecond t < 1_000_000_000) ⊎ (num_seconds_from_midnight t % 60 ≡ 59)
