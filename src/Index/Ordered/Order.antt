-- ===== src/Index/Ordered/Order.antt =====
-- The order of encoded scalars.
use stratodb.Base.{
  ℕ, suc, ◌^◌, ◌<◌, ◌≡◌, refl, sym, ap, ◌∙◌, List, [], ◌∷◌, ◌++◌, append_assoc, Bool, true, false,
  some, IsByte, All, All-append, length, take-append, drop-append, map, complement, and_then, lex,
  lex?, lex?_same_length, lex?-append, lex?-append_lex?, lex?-complement, lex-prefix, if◌then◌else◌,
  arith, ℤ, pos, compareℤ, IsInt, scale_add-IsInt, biased, biased-lt, be_bytes, be_bytes-All,
  lex?-be_bytes,
}
use stratodb.Crates.{Crates}
use stratodb.Scalar.Tag
use stratodb.Scalar.{Scalar, IsWellTyped}
use stratodb.Scalar.Codec.{int_bytes, of_bool}
use stratodb.Index.Ordered.{signed, float_bits, total_nanos, encode_ascending, encode_scalar}
use stratodb.Index.Ordered.Reference.{lexℤ, type_rank, components, scalar_cmp, column_cmp}
use stratodb.Index.Ordered.Bytes.{
  escaped, ordered_bytes-escaped, lex?-escaped, lexℤ-pos, escaped-All, push_signed-biased,
  lex?-biased, lex?-float, float_bits-lt,
}

module _ ⦃crates : Crates⦄ where
  open crates use {
    NaiveTime, TimeDelta, as_bytes, num_days_from_ce, num_seconds_from_midnight, nanosecond,
    naive_utc_date, naive_utc_time, num_seconds, subsec_nanos,
  }

  -- What `encode_ascending` appends behind the tag.
  unfoldable pub body : Scalar → List ℕ
  body Scalar.null = []
  body (Scalar.bool v) = of_bool v ∷ []
  body (Scalar.i8 v) = be_bytes 1 (biased 0 v)
  body (Scalar.i16 v) = be_bytes 2 (biased 1 v)
  body (Scalar.i32 v) = be_bytes 4 (biased 3 v)
  body (Scalar.i64 v) = be_bytes 8 (biased 7 v)
  body (Scalar.i128 v) = be_bytes 16 (biased 15 v)
  body (Scalar.u8 v) = v ∷ []
  body (Scalar.u16 v) = be_bytes 2 v
  body (Scalar.u32 v) = be_bytes 4 v
  body (Scalar.u64 v) = be_bytes 8 v
  body (Scalar.u128 v) = be_bytes 16 v
  body (Scalar.f32 v) = be_bytes 4 (float_bits 31 v)
  body (Scalar.f64 v) = be_bytes 8 (float_bits 63 v)
  body (Scalar.str v) = escaped v
  body (Scalar.bytes v) = escaped v
  body (Scalar.uuid v) = as_bytes v
  body (Scalar.date v) = be_bytes 4 (biased 3 (num_days_from_ce v))
  body (Scalar.time v) = be_bytes 4 (num_seconds_from_midnight v) ++ be_bytes 4 (nanosecond v)
  body (Scalar.datetime v) =
      let clock = naive_utc_time v in
      be_bytes 4 (biased 3 (num_days_from_ce (naive_utc_date v)))
      ++ (be_bytes 4 (num_seconds_from_midnight clock) ++ be_bytes 4 (nanosecond clock))
  body (Scalar.duration v) = be_bytes 16 (biased 15 (total_nanos v))

  abbrev pub key : Scalar → List ℕ
  key s = type_rank s ∷ body s

  total_nanos-IsInt : (d : TimeDelta) → IsInt 15 (total_nanos d)
  unfolding total_nanos
  total_nanos-IsInt d =
      scale_add-IsInt _ _ (crates.num_seconds-IsInt d) (crates.subsec_nanos-IsInt d)

  tagged_int :
      (out : List ℕ) (tag m : ℕ) (v : ℤ)
      → IsInt m v
      → signed out tag (int_bytes m v) ≡ out ++ (tag ∷ be_bytes (suc m) (biased m v))
  unfolding signed
  tagged_int out tag m v h =
      push_signed-biased (out ++ tag ∷ []) m v h ∙ append_assoc out (tag ∷ []) _

  encode_ascending-key :
      (out : List ℕ) (s : Scalar) → IsWellTyped s → encode_ascending out s ≡ out ++ key s
  unfolding encode_ascending body type_rank
  encode_ascending-key out Scalar.null t = refl
  encode_ascending-key out (Scalar.bool v) t = append_assoc out _ _
  encode_ascending-key out (Scalar.i8 v) t = tagged_int out Tag.i8 0 v t
  encode_ascending-key out (Scalar.i16 v) t = tagged_int out Tag.i16 1 v t
  encode_ascending-key out (Scalar.i32 v) t = tagged_int out Tag.i32 3 v t
  encode_ascending-key out (Scalar.i64 v) t = tagged_int out Tag.i64 7 v t
  encode_ascending-key out (Scalar.i128 v) t = tagged_int out Tag.i128 15 v t
  encode_ascending-key out (Scalar.u8 v) t = append_assoc out _ _
  encode_ascending-key out (Scalar.u16 v) t = append_assoc out _ _
  encode_ascending-key out (Scalar.u32 v) t = append_assoc out _ _
  encode_ascending-key out (Scalar.u64 v) t = append_assoc out _ _
  encode_ascending-key out (Scalar.u128 v) t = append_assoc out _ _
  encode_ascending-key out (Scalar.f32 v) t = append_assoc out _ _
  encode_ascending-key out (Scalar.f64 v) t = append_assoc out _ _
  encode_ascending-key out (Scalar.uuid v) t = append_assoc out _ _
  encode_ascending-key out (Scalar.str v) t =
      ordered_bytes-escaped (out ++ Tag.str ∷ []) v ∙ append_assoc out (Tag.str ∷ []) (escaped v)
  encode_ascending-key out (Scalar.bytes v) t =
      ordered_bytes-escaped (out ++ Tag.bytes ∷ []) v
      ∙ append_assoc out (Tag.bytes ∷ []) (escaped v)
  encode_ascending-key out (Scalar.date v) t = tagged_int out Tag.date 3 _ (crates.num_days-IsInt v)
  encode_ascending-key out (Scalar.time v) t = simp append_assoc
  encode_ascending-key out (Scalar.datetime v) t =
      rw
        (push_signed-biased (out ++ Tag.datetime ∷ []) 3 _
          (crates.num_days-IsInt (naive_utc_date v)))
        (simp append_assoc)
  encode_ascending-key out (Scalar.duration v) t =
      tagged_int out Tag.duration 15 _ (total_nanos-IsInt v)

  lexℤ-one : (v w : ℤ) → lexℤ (v ∷ []) (w ∷ []) ≡ compareℤ v w
  unfolding lexℤ
  lexℤ-one v w = ground arith

  lex?-int :
      (m : ℕ) (v w : ℤ)
      → IsInt m v
      → IsInt m w
      → lex? (be_bytes (suc m) (biased m v)) (be_bytes (suc m) (biased m w))
        ≡ some (lexℤ (v ∷ []) (w ∷ []))
  lex?-int m v w hv hw = lex?-biased m v w hv hw ∙ ap some (sym (lexℤ-one v w))

  lex?-nat :
      (n v w : ℕ)
      → v < 256 ^ n
      → w < 256 ^ n
      → lex? (be_bytes n v) (be_bytes n w) ≡ some (lexℤ (pos v ∷ []) (pos w ∷ []))
  lex?-nat n v w hv hw = lex?-be_bytes n v w hv hw ∙ ap some (sym (lexℤ-one (pos v) (pos w)))

  lex?-byte : (v w : ℕ) → lex? (v ∷ []) (w ∷ []) ≡ some (lexℤ (pos v ∷ []) (pos w ∷ []))
  unfolding lex? lexℤ
  lex?-byte v w = ground arith

  lex?-text : (v w : List ℕ) → lex? (escaped v) (escaped w) ≡ some (lexℤ (map pos v) (map pos w))
  lex?-text v w = lex?-escaped v w ∙ ap some (sym (lexℤ-pos v w))

  lex?-fixed : (v w : List ℕ) → length v ≡ length w → lex? v w ≡ some (lexℤ (map pos v) (map pos w))
  lex?-fixed v w h = lex?_same_length v w h ∙ ap some (sym (lexℤ-pos v w))

  -- One fixed-width component in front of more.
  lex?-component :
      (x y s t : List ℕ) (v w : ℤ) (vs ws : List ℤ)
      → lex? x y ≡ some (lexℤ (v ∷ []) (w ∷ []))
      → lex? s t ≡ some (lexℤ vs ws)
      → lex? (x ++ s) (y ++ t) ≡ some (lexℤ (v ∷ vs) (w ∷ ws))
  unfolding lexℤ
  lex?-component x y s t v w vs ws h k =
      ground (arith, lex?-append_lex? x y s t (lexℤ (v ∷ []) (w ∷ [])))

  lex?-time :
      (v w : NaiveTime)
      → lex?
          (be_bytes 4 (num_seconds_from_midnight v) ++ be_bytes 4 (nanosecond v))
          (be_bytes 4 (num_seconds_from_midnight w) ++ be_bytes 4 (nanosecond w))
        ≡ some (
            lexℤ
              (pos (num_seconds_from_midnight v) ∷ pos (nanosecond v) ∷ [])
              (pos (num_seconds_from_midnight w) ∷ pos (nanosecond w) ∷ []))
  lex?-time v w =
      lex?-component _ _ _ _ _ _ _ _
        (lex?-nat 4 _ _ (omega (arith, crates.num_seconds-lt v))
          (omega (arith, crates.num_seconds-lt w)))
        (lex?-nat 4 _ _ (omega (arith, crates.nanosecond-lt v))
          (omega (arith, crates.nanosecond-lt w)))

  lex?-bool :
      (v w : Bool)
      → lex? (of_bool v ∷ []) (of_bool w ∷ [])
        ≡ some (lexℤ (pos (if v then 1 else 0) ∷ []) (pos (if w then 1 else 0) ∷ []))
  lex?-bool false w = lex?-byte _ _ ∙ (ground arith)
  lex?-bool true w = lex?-byte _ _ ∙ (ground arith)

  lex?-body :
      (a b : Scalar)
      → IsWellTyped a
      → IsWellTyped b
      → type_rank a ≡ type_rank b
      → lex? (body a) (body b) ≡ some (lexℤ (components a) (components b))
  unfolding body components type_rank
  lex?-body Scalar.null Scalar.null t u h = unfold lex? lexℤ in refl
  lex?-body (Scalar.bool v) (Scalar.bool w) t u h = lex?-bool v w
  lex?-body (Scalar.i8 v) (Scalar.i8 w) t u h = lex?-int 0 v w t u
  lex?-body (Scalar.i16 v) (Scalar.i16 w) t u h = lex?-int 1 v w t u
  lex?-body (Scalar.i32 v) (Scalar.i32 w) t u h = lex?-int 3 v w t u
  lex?-body (Scalar.i64 v) (Scalar.i64 w) t u h = lex?-int 7 v w t u
  lex?-body (Scalar.i128 v) (Scalar.i128 w) t u h = lex?-int 15 v w t u
  lex?-body (Scalar.u8 v) (Scalar.u8 w) t u h = lex?-byte v w
  lex?-body (Scalar.u16 v) (Scalar.u16 w) t u h = lex?-nat 2 v w t u
  lex?-body (Scalar.u32 v) (Scalar.u32 w) t u h = lex?-nat 4 v w t u
  lex?-body (Scalar.u64 v) (Scalar.u64 w) t u h = lex?-nat 8 v w t u
  lex?-body (Scalar.u128 v) (Scalar.u128 w) t u h = lex?-nat 16 v w t u
  lex?-body (Scalar.f32 v) (Scalar.f32 w) t u h =
      lex?-float 4 31 v w refl t u ∙ ap some (sym (lexℤ-one _ _))
  lex?-body (Scalar.f64 v) (Scalar.f64 w) t u h =
      lex?-float 8 63 v w refl t u ∙ ap some (sym (lexℤ-one _ _))
  lex?-body (Scalar.str v) (Scalar.str w) t u h = lex?-text v w
  lex?-body (Scalar.bytes v) (Scalar.bytes w) t u h = lex?-text v w
  lex?-body (Scalar.uuid v) (Scalar.uuid w) t u h =
      lex?-fixed _ _ ((crates.as_bytes-IsArray v).0 ∙ sym (crates.as_bytes-IsArray w).0)
  lex?-body (Scalar.date v) (Scalar.date w) t u h =
      lex?-int 3 _ _ (crates.num_days-IsInt v) (crates.num_days-IsInt w)
  lex?-body (Scalar.time v) (Scalar.time w) t u h = lex?-time v w
  lex?-body (Scalar.datetime v) (Scalar.datetime w) t u h =
      lex?-component _ _ _ _ _ _ _ _
        (lex?-int 3 _ _ (crates.num_days-IsInt (naive_utc_date v))
          (crates.num_days-IsInt (naive_utc_date w)))
        (lex?-time (naive_utc_time v) (naive_utc_time w))
  lex?-body (Scalar.duration v) (Scalar.duration w) t u h =
      lex?-int 15 _ _ (total_nanos-IsInt v) (total_nanos-IsInt w)
  lex?-body a b t u h = absurd (omega arith)

  lex?-key :
      (a b : Scalar) → IsWellTyped a → IsWellTyped b → lex? (key a) (key b) ≡ some (scalar_cmp a b)
  unfolding lex? scalar_cmp
  lex?-key a b t u = ground (arith, lex?-body a b t u)

  clock-All :
      (c : NaiveTime)
      → All IsByte (be_bytes 4 (num_seconds_from_midnight c) ++ be_bytes 4 (nanosecond c))
  clock-All c =
      All-append IsByte (be_bytes 4 _) _ (be_bytes-All 4 _ (omega (arith, crates.num_seconds-lt c)))
        (be_bytes-All 4 _ (omega (arith, crates.nanosecond-lt c)))

  body-All : (a : Scalar) → IsWellTyped a → All IsByte (body a)
  unfolding body
  body-All Scalar.null t = tt
  body-All (Scalar.bool false) t = omega arith
  body-All (Scalar.bool true) t = omega arith
  body-All (Scalar.i8 v) t = be_bytes-All 1 _ (biased-lt 0 v t)
  body-All (Scalar.i16 v) t = be_bytes-All 2 _ (biased-lt 1 v t)
  body-All (Scalar.i32 v) t = be_bytes-All 4 _ (biased-lt 3 v t)
  body-All (Scalar.i64 v) t = be_bytes-All 8 _ (biased-lt 7 v t)
  body-All (Scalar.i128 v) t = be_bytes-All 16 _ (biased-lt 15 v t)
  body-All (Scalar.u8 v) t = (t, tt)
  body-All (Scalar.u16 v) t = be_bytes-All 2 v t
  body-All (Scalar.u32 v) t = be_bytes-All 4 v t
  body-All (Scalar.u64 v) t = be_bytes-All 8 v t
  body-All (Scalar.u128 v) t = be_bytes-All 16 v t
  body-All (Scalar.f32 v) t = be_bytes-All 4 _ (float_bits-lt 4 31 v refl t)
  body-All (Scalar.f64 v) t = be_bytes-All 8 _ (float_bits-lt 8 63 v refl t)
  body-All (Scalar.str v) t = escaped-All v t.0
  body-All (Scalar.bytes v) t = escaped-All v t
  body-All (Scalar.uuid v) t = (crates.as_bytes-IsArray v).1
  body-All (Scalar.date v) t = be_bytes-All 4 _ (biased-lt 3 _ (crates.num_days-IsInt v))
  body-All (Scalar.time v) t = clock-All v
  body-All (Scalar.datetime v) t =
      All-append IsByte (be_bytes 4 _) _
        (be_bytes-All 4 _ (biased-lt 3 _ (crates.num_days-IsInt (naive_utc_date v))))
        (clock-All (naive_utc_time v))
  body-All (Scalar.duration v) t = be_bytes-All 16 _ (biased-lt 15 _ (total_nanos-IsInt v))

  type_rank-lt : (a : Scalar) → type_rank a < 21
  unfolding type_rank
  type_rank-lt Scalar.null = omega arith
  type_rank-lt a = omega arith

  pub key-All : (a : Scalar) → IsWellTyped a → All IsByte (key a)
  key-All a t = (omega (arith, type_rank-lt a), body-All a t)

  -- What `encode_scalar` appends.
  abbrev pub column : Bool → Scalar → List ℕ
  column descending s = if descending then map complement (key s) else key s

  pub encode_scalar-column :
      (out : List ℕ) (s : Scalar) (descending : Bool)
      → IsWellTyped s
      → encode_scalar out s descending ≡ out ++ column descending s
  unfolding encode_scalar
  encode_scalar-column out s false t = encode_ascending-key out s t
  encode_scalar-column out s true t =
      rw (encode_ascending-key out s t, take-append out (key s), drop-append out (key s)) refl

  -- Two encodings of one column are never proper prefixes of one another, and compare as the
  -- scalars do.
  pub lex?-column :
      (descending : Bool) (a b : Scalar)
      → IsWellTyped a
      → IsWellTyped b
      → lex? (column descending a) (column descending b) ≡ some (column_cmp descending a b)
  unfolding column_cmp
  lex?-column false a b t u = lex?-key a b t u
  lex?-column true a b t u =
      lex?-complement (key a) (key b) (scalar_cmp a b) (key-All a t) (key-All b u)
        (lex?-key a b t u)

  -- Two well-typed scalars, appended to the same bytes and followed by any others, compare bytewise
  -- as the column orders their values, and by what follows only if those are equal.
  pub encode_scalar_order :
      (out : List ℕ) (descending : Bool) (a b : Scalar) (s t : List ℕ)
      → IsWellTyped a
      → IsWellTyped b
      → lex (encode_scalar out a descending ++ s) (encode_scalar out b descending ++ t)
        ≡ and_then (column_cmp descending a b) (lex s t)
  encode_scalar_order out descending a b s t ha hb =
      let ca = column descending a in
      let cb = column descending b in
      rw
        (
          encode_scalar-column out a descending ha,
          encode_scalar-column out b descending hb,
          append_assoc out ca s,
          append_assoc out cb t,
          lex-prefix out (ca ++ s) (cb ++ t),
        )
        (lex?-append ca cb s t _ (lex?-column descending a b ha hb))
