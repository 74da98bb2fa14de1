-- ===== src/Index/Ordered/Reference.antt =====
-- The order of scalars that index keys are to follow, stated on the values and not on bytes.
use stratodb.Base.{
  ℕ, ◌^◌, ◌-◌, List, [], ◌∷◌, map, Bool, ℤ, pos, negsuc, compareℤ, compare, Ordering, and_then,
  swap, ltb, if◌then◌else◌,
}
use stratodb.Crates.{Crates}
use stratodb.Scalar.{Scalar}
use stratodb.Index.Ordered.{total_nanos}

-- Component by component; a proper prefix comes first.
unfoldable pub lexℤ : List ℤ → List ℤ → Ordering
lexℤ [] [] = Ordering.eq
lexℤ [] (b ∷ ys) = Ordering.lt
lexℤ (a ∷ xs) [] = Ordering.gt
lexℤ (a ∷ xs) (b ∷ ys) = and_then (compareℤ a b) (lexℤ xs ys)

-- IEEE 754 total order: a float's sign and magnitude as an integer, where -0 is below +0.
unfoldable pub float_rank : ℕ → ℕ → ℤ
float_rank sign bits = if ltb bits (2 ^ sign) then pos bits else negsuc (bits - 2 ^ sign)

module _ ⦃crates : Crates⦄ where
  open crates use {
    as_bytes, num_days_from_ce, num_seconds_from_midnight, nanosecond, naive_utc_date,
    naive_utc_time, num_seconds, subsec_nanos,
  }

  -- Scalars of different types are ordered by type, in the order of the enum's declaration.
  unfoldable pub type_rank : Scalar → ℕ
  type_rank Scalar.null = 0
  type_rank (Scalar.bool v) = 1
  type_rank (Scalar.i8 v) = 2
  type_rank (Scalar.i16 v) = 3
  type_rank (Scalar.i32 v) = 4
  type_rank (Scalar.i64 v) = 5
  type_rank (Scalar.i128 v) = 6
  type_rank (Scalar.u8 v) = 7
  type_rank (Scalar.u16 v) = 8
  type_rank (Scalar.u32 v) = 9
  type_rank (Scalar.u64 v) = 10
  type_rank (Scalar.u128 v) = 11
  type_rank (Scalar.f32 v) = 12
  type_rank (Scalar.f64 v) = 13
  type_rank (Scalar.str v) = 14
  type_rank (Scalar.bytes v) = 15
  type_rank (Scalar.uuid v) = 16
  type_rank (Scalar.date v) = 17
  type_rank (Scalar.time v) = 18
  type_rank (Scalar.datetime v) = 19
  type_rank (Scalar.duration v) = 20

  -- Scalars of one type are ordered by these components.
  unfoldable pub components : Scalar → List ℤ
  unfolding float_rank total_nanos
  components Scalar.null = []
  components (Scalar.bool v) = pos (if v then 1 else 0) ∷ []
  components (Scalar.i8 v) = v ∷ []
  components (Scalar.i16 v) = v ∷ []
  components (Scalar.i32 v) = v ∷ []
  components (Scalar.i64 v) = v ∷ []
  components (Scalar.i128 v) = v ∷ []
  components (Scalar.u8 v) = pos v ∷ []
  components (Scalar.u16 v) = pos v ∷ []
  components (Scalar.u32 v) = pos v ∷ []
  components (Scalar.u64 v) = pos v ∷ []
  components (Scalar.u128 v) = pos v ∷ []
  components (Scalar.f32 v) = float_rank 31 v ∷ []
  components (Scalar.f64 v) = float_rank 63 v ∷ []
  components (Scalar.str v) = map pos v
  components (Scalar.bytes v) = map pos v
  components (Scalar.uuid v) = map pos (as_bytes v)
  components (Scalar.date v) = num_days_from_ce v ∷ []
  components (Scalar.time v) = pos (num_seconds_from_midnight v) ∷ pos (nanosecond v) ∷ []
  components (Scalar.datetime v) =
      num_days_from_ce (naive_utc_date v)
      ∷ pos (num_seconds_from_midnight (naive_utc_time v))
      ∷ pos (nanosecond (naive_utc_time v))
      ∷ []
  components (Scalar.duration v) = total_nanos v ∷ []

  unfoldable pub scalar_cmp : Scalar → Scalar → Ordering
  unfolding type_rank components lexℤ
  scalar_cmp a b =
      and_then (compare (type_rank a) (type_rank b)) (lexℤ (components a) (components b))

  -- The order of one column, reversed if it is descending.
  unfoldable pub column_cmp : Bool → Scalar → Scalar → Ordering
  unfolding scalar_cmp
  column_cmp descending a b = if descending then swap (scalar_cmp a b) else scalar_cmp a b
