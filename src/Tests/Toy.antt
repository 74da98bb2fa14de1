-- ===== src/Tests/Toy.antt =====
-- A small instance of what the code uses of uuid and chrono, for the tests: identifiers are
-- 128-bit numbers, dates count days from the epoch, times are seconds and nanoseconds, and a
-- duration is a number of seconds that fits, and nanoseconds.
use Prim.Native.Nat.{◌%◌}
use std.HLevel.{prop→path_p}
use stratodb.Base.{
  ℕ, ◌+◌, ◌^◌, ◌<◌, ◌≡◌, ◌⊎◌, refl, ap, List, Bool, true, false, Option, some, none, ltb, ltb→lt,
  lt→ltb, ◌||◌, ◌==◌, if◌then◌else◌, ℤ, pos, negsuc, be_bytes, be_value, be_bytes-All,
  be_value-be_bytes, be_value-lt, be_bytes-be_value, length-be_bytes, arith,
}
use stratodb.Crates.{Crates, IsArray}

-- A number below a bound.
pub record Below (bound : ℕ) : Type 0 where
  pub value : ℕ
  pub fits : ltb value bound ≡ true

bool_set : IsSet Bool
bool_set = hlevel

Below-eq : (bound : ℕ) (a b : Below bound) → a.value ≡ b.value → a ≡ b
Below-eq bound a b e = λ i. record {
  value = e i;
  fits =
      prop→path_p (λ i. ltb (e i) bound ≡ true) (bool_set (ltb b.value bound) true) a.fits b.fits i;
}

unfoldable pub below_if : (bound n : ℕ) (small : Bool) → ltb n bound ≡ small → Option (Below bound)
below_if bound n true h = some (record { value = n; fits = h })
below_if bound n false h = none

unfoldable pub below : (bound n : ℕ) → Option (Below bound)
unfolding below_if
below bound n = below_if bound n (ltb n bound) refl

below_if-value :
    (bound : ℕ) (b : Below bound) (small : Bool) (e : ltb b.value bound ≡ small)
    → below_if bound b.value small e ≡ some b
unfolding below_if
below_if-value bound b true e = ap some (Below-eq bound _ b refl)
below_if-value bound b false e = absurd (grind (arith, e, b.fits))

pub below-value : (bound : ℕ) (b : Below bound) → below bound b.value ≡ some b
unfolding below
below-value bound b = below_if-value bound b (ltb b.value bound) refl

-- A pair of numbers below bounds, which times and durations are.
unfoldable pub both : {m n : ℕ} → Option (Below m) → Option (Below n) → Option (Below m × Below n)
both (some a) (some b) = some (a, b)
both (some a) none = none
both none y = none

abbrev pub zero_below : (bound : ℕ) → ltb 0 bound ≡ true → Below bound
zero_below bound h = record { value = 0; fits = h }

unfoldable pub of_number : ℕ → Below (2 ^ 128)
unfolding below
of_number n = elim (below (2 ^ 128) n) [ none ↦ zero_below (2 ^ 128) refl | some u ↦ u ]

of_number-value : (u : Below (2 ^ 128)) → of_number u.value ≡ u
unfolding of_number
of_number-value u = rw (below-value (2 ^ 128) u, of_number) refl

of_number_small : (n : ℕ) → n < 2 ^ 128 → (of_number n).value ≡ n
of_number_small n h =
    ap (λ u. u.value) (of_number-value (record { value = n; fits = lt→ltb _ _ h }))

unfoldable pub uuid_of : List ℕ → Below (2 ^ 128)
unfolding of_number
uuid_of bs = of_number (be_value bs)

unfoldable pub as_bytes : Below (2 ^ 128) → List ℕ
as_bytes u = be_bytes 16 u.value

pub as_bytes-IsArray : (u : Below (2 ^ 128)) → IsArray 16 (as_bytes u)
unfolding as_bytes
as_bytes-IsArray u = (length-be_bytes 16 u.value, be_bytes-All 16 u.value (ltb→lt _ _ u.fits))

pub uuid_of-as_bytes : (u : Below (2 ^ 128)) → uuid_of (as_bytes u) ≡ u
unfolding as_bytes uuid_of
uuid_of-as_bytes u = rw (be_value-be_bytes 16 u.value (ltb→lt _ _ u.fits)) (of_number-value u)

pub as_bytes-uuid_of : (bs : List ℕ) → IsArray 16 bs → as_bytes (uuid_of bs) ≡ bs
unfolding as_bytes uuid_of
as_bytes-uuid_of bs (n, h) =
    rw (of_number_small (be_value bs) (rw n at (be_value-lt bs h)))
      (rw n at (be_bytes-be_value bs h))

pub as_bytes-of_number : (n : ℕ) → n < 2 ^ 128 → as_bytes (of_number n) ≡ be_bytes 16 n
unfolding as_bytes
as_bytes-of_number n h = rw (of_number_small n h) refl

unfoldable pub date_of : ℤ → Option (Below (2 ^ 31))
unfolding below
date_of (pos n) = below (2 ^ 31) n
date_of (negsuc n) = none

unfoldable pub time_of : ℕ → ℕ → Option (Below 86_400 × Below 2_000_000_000)
unfolding below both
time_of s n =
    if ltb n 1_000_000_000 || s % 60 == 59
    then both (below 86_400 s) (below 2_000_000_000 n)
    else none

unfoldable pub seconds : ℤ → Option (Below (2 ^ 53) × Below 1_000_000_000)
unfolding below both
seconds (pos n) = both (below (2 ^ 53) n) (below 1_000_000_000 0)
seconds (negsuc n) = none

unfoldable pub nanos_of : ℤ → Below (2 ^ 53) × Below 1_000_000_000
unfolding below both
nanos_of (pos n) = elim (both (below (2 ^ 53) 0) (below 1_000_000_000 n)) [
  | none ↦ (zero_below _ refl, zero_below _ refl)
  | some d ↦ d
]
nanos_of (negsuc n) = (zero_below _ refl, zero_below _ refl)

unfoldable pub add :
    Below (2 ^ 53) × Below 1_000_000_000
    → Below (2 ^ 53) × Below 1_000_000_000
    → Option (Below (2 ^ 53) × Below 1_000_000_000)
unfolding below both
add (s, n) (s', n') =
    both (below (2 ^ 53) (s.value + s'.value)) (below 1_000_000_000 (n.value + n'.value))

pub time_of-time :
    (t : Below 86_400 × Below 2_000_000_000)
    → (t.1.value < 1_000_000_000) ⊎ (t.0.value % 60 ≡ 59)
    → time_of t.0.value t.1.value ≡ some t
unfolding time_of both
time_of-time (s, n) h =
    let plain : (ltb n.value 1_000_000_000 || s.value % 60 == 59) ≡ true = ground arith in
    rw (plain, below-value _ s, below-value _ n) refl

nanos_of-value : (n : Below 1_000_000_000) → nanos_of (pos n.value) ≡ (zero_below _ refl, n)
unfolding nanos_of both
nanos_of-value n = rw (below-value _ n, nanos_of) refl

add_zero :
    (s : Below (2 ^ 53)) (n : Below 1_000_000_000)
    → add (s, zero_below _ refl) (zero_below _ refl, n) ≡ some (s, n)
unfolding add both
add_zero s n =
    let right : s.value + 0 ≡ s.value = omega arith in
    let left : 0 + n.value ≡ n.value = omega arith in
    rw (add, right, left, below-value _ s, below-value _ n) refl

pub seconds-add :
    (d : Below (2 ^ 53) × Below 1_000_000_000)
    → (s : Below (2 ^ 53) × Below 1_000_000_000) × (seconds (pos d.0.value) ≡ some s)
      × (add s (nanos_of (pos d.1.value)) ≡ some d)
unfolding seconds add both nanos_of
seconds-add (s, n) =
    ((s, zero_below _ refl), rw (below-value _ s) refl, rw (nanos_of-value n) (add_zero s n))

instance unfoldable pub toy_crates : Crates
unfolding as_bytes date_of
toy_crates = record {
  Uuid = Below (2 ^ 128);
  as_bytes = as_bytes;
  from_bytes = uuid_of;
  as_bytes-IsArray = as_bytes-IsArray;
  from_bytes-as_bytes = uuid_of-as_bytes;
  as_bytes-from_bytes = as_bytes-uuid_of;
  nil = zero_below (2 ^ 128) refl;
  as_bytes-nil = refl;
  from_u128 = of_number;
  as_bytes-from_u128 = as_bytes-of_number;
  NaiveDate = Below (2 ^ 31);
  num_days_from_ce = λ d. pos d.value;
  from_num_days_from_ce_opt = date_of;
  num_days-IsInt = λ d. ltb→lt _ _ d.fits;
  from_num_days-num_days = λ d. below-value (2 ^ 31) d;
  NaiveTime = Below 86_400 × Below 2_000_000_000;
  num_seconds_from_midnight = λ t. t.0.value;
  nanosecond = λ t. t.1.value;
  from_num_seconds_from_midnight_opt = time_of;
  num_seconds-lt = λ t. ltb→lt _ _ t.0.fits;
  nanosecond-lt = λ t. ltb→lt _ _ t.1.fits;
  from_num_seconds-num_seconds = time_of-time;
  DateTime = Below (2 ^ 31) × (Below 86_400 × Below 2_000_000_000);
  naive_utc_date = λ d. d.0;
  naive_utc_time = λ d. d.1;
  and_utc = λ d t. (d, t);
  and_utc-naive_utc = λ d. refl;
  TimeDelta = Below (2 ^ 53) × Below 1_000_000_000;
  num_seconds = λ d. pos d.0.value;
  subsec_nanos = λ d. pos d.1.value;
  seconds_opt = seconds;
  nanoseconds = nanos_of;
  add_opt = add;
  num_seconds-IsInt = λ d. grind (arith, ltb→lt _ _ d.0.fits);
  subsec_nanos-IsInt = λ d. grind (arith, ltb→lt _ _ d.1.fits);
  seconds-num_seconds = seconds-add;
}
