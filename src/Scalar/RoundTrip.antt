-- ===== src/Scalar/RoundTrip.antt =====
-- Reading back what `Scalar::encode` wrote.
use stratodb.Base.{
  ℕ, suc, ℤ, ◌<◌, ◌^◌, ◌≡◌, refl, List, [], ◌∷◌, ◌++◌, append_assoc, length, Bool, true, false, not,
  ◌==◌, be_bytes, length-be_bytes, be_value-be_bytes, IsInt, to_word, to_word-lt, of_word-to_word,
  is_utf8, from_utf8, arith,
}
use stratodb.Error.{ok}
use stratodb.Crates.{Crates, IsPlainTime}
use stratodb.Codec.{Decode, ◌>>=◌, pure}
use stratodb.Codec.Reads.{
  Reads, Reads-after, Reads-pure, Reads-lift, Reads-bind, Reads-bind_last, Reads-u8, Reads-u32,
  Reads-u64, Reads-array, Reads-bytes, put_bytes-run, run,
}
use stratodb.Scalar.Tag
use stratodb.Scalar.{Scalar, IsWellTyped, IsStorable}
use stratodb.Scalar.Codec.{
  encode, decode, decode_body, decode_time, decode_date, decode_duration, signed, unsigned,
  int_bytes, of_bool, or_corrupt, or_panic,
}

Reads-unsigned : (n v : ℕ) → v < 256 ^ n → Reads (unsigned n) (be_bytes n v) v
unfolding unsigned
Reads-unsigned n v h =
    Reads-bind_last _ _ (be_bytes n v) (be_bytes n v) v
      (Reads-array n (be_bytes n v) (length-be_bytes n v))
      (rw (be_value-be_bytes n v h) (Reads-pure v))

pub Reads-signed : (m : ℕ) (v : ℤ) → IsInt m v → Reads (signed m) (int_bytes m v) v
unfolding signed
Reads-signed m v h =
    Reads-bind_last _ _ (int_bytes m v) (int_bytes m v) v
      (Reads-array (suc m) (int_bytes m v) (length-be_bytes (suc m) (to_word m v)))
      (rw (be_value-be_bytes (suc m) (to_word m v) (to_word-lt m v h), of_word-to_word m v h)
        (Reads-pure v))

-- A decoder followed by a constructor.
pub Reads-map :
    {A B : Type 0} (d : Decode A) (f : A → B) (bs : List ℕ) (a : A)
    → Reads d bs a
    → Reads (d >>= λ x. pure (f x)) bs (f a)
Reads-map d f bs a h = Reads-bind_last d _ bs a (f a) h (Reads-pure (f a))

module _ ⦃crates : Crates⦄ where
  open crates use {
    NaiveDate, NaiveTime, TimeDelta, num_days_from_ce, num_seconds_from_midnight, nanosecond,
    num_seconds, subsec_nanos, as_bytes, from_bytes,
  }

  -- The stored bytes of a scalar.
  abbrev pub image : Scalar → List ℕ
  image s = encode [] s

  Reads-decode_date : (d : NaiveDate) → Reads decode_date (int_bytes 3 (num_days_from_ce d)) d
  unfolding decode_date
  Reads-decode_date d =
      Reads-bind_last _ _ _ (num_days_from_ce d) d (Reads-signed 3 _ (crates.num_days-IsInt d))
        (Reads-lift _ d (rw (crates.from_num_days-num_days d)))

  abbrev time_bytes : NaiveTime → List ℕ
  time_bytes t = be_bytes 4 (num_seconds_from_midnight t) ++ be_bytes 4 (nanosecond t)

  Reads-decode_time : (t : NaiveTime) → IsPlainTime t → Reads decode_time (time_bytes t) t
  unfolding decode_time
  Reads-decode_time t h =
      Reads-bind _ _ _ (be_bytes 4 (nanosecond t)) _ t
        (Reads-u32 (num_seconds_from_midnight t) (omega (arith, crates.num_seconds-lt t)))
        (Reads-bind_last _ _ _ (nanosecond t) t
          (Reads-u32 (nanosecond t) (omega (arith, crates.nanosecond-lt t)))
          (Reads-lift _ t (rw (crates.from_num_seconds-num_seconds t h))))

  Reads-decode_duration :
      (d : TimeDelta)
      → Reads decode_duration (int_bytes 7 (num_seconds d) ++ int_bytes 3 (subsec_nanos d)) d
  unfolding decode_duration
  Reads-decode_duration d =
      let (s, first, second) = crates.seconds-num_seconds d in
      Reads-bind _ _ _ (int_bytes 3 (subsec_nanos d)) _ d
        (Reads-signed 7 _ (crates.num_seconds-IsInt d))
        (Reads-bind_last _ _ _ (subsec_nanos d) d (Reads-signed 3 _ (crates.subsec_nanos-IsInt d)) (
          Reads-bind _ _ [] [] s d
            (Reads-lift (or_panic (crates.seconds_opt (num_seconds d))) s (rw first))
            (Reads-lift (or_panic (crates.add_opt s (crates.nanoseconds (subsec_nanos d)))) d
              (rw second))))

  -- `decode` dispatches on the tag byte.
  Reads-tagged :
      (tag : ℕ) (bs : List ℕ) (s : Scalar)
      → Reads (decode_body tag) bs s
      → Reads decode (tag ∷ bs) s
  unfolding decode
  Reads-tagged tag bs s h = Reads-bind _ _ (tag ∷ []) bs tag s (Reads-u8 tag) h

  Reads-str :
      (v : List ℕ)
      → is_utf8 v ≡ true
      → length v < 2 ^ 32
      → Reads (decode_body Tag.str) (run v) (Scalar.str v)
  unfolding decode_body
  Reads-str v valid h = Reads-bind_last _ _ (run v) v (Scalar.str v) (Reads-bytes v h) (
      Reads-bind _ _ [] [] v (Scalar.str v) (Reads-lift (or_corrupt (from_utf8 v)) v (rw valid))
        (Reads-pure (Scalar.str v)))

  Reads-bool : (v : Bool) → Reads (decode_body Tag.bool) (of_bool v ∷ []) (Scalar.bool v)
  unfolding decode_body
  Reads-bool false = Reads-map _ _ _ 0 (Reads-u8 0)
  Reads-bool true = Reads-map _ (λ b. Scalar.bool (not (b == 0))) _ 1 (Reads-u8 1)

  pub Reads-image : (s : Scalar) → IsWellTyped s → IsStorable s → Reads decode (image s) s
  unfolding encode decode_body
  Reads-image Scalar.null t k = Reads-tagged _ _ _ (Reads-pure Scalar.null)
  Reads-image (Scalar.bool v) t k = Reads-tagged _ _ _ (Reads-bool v)
  Reads-image (Scalar.i8 v) t k =
      Reads-tagged _ _ _ (Reads-map _ Scalar.i8 _ v (Reads-signed 0 v t))
  Reads-image (Scalar.i16 v) t k =
      Reads-tagged _ _ _ (Reads-map _ Scalar.i16 _ v (Reads-signed 1 v t))
  Reads-image (Scalar.i32 v) t k =
      Reads-tagged _ _ _ (Reads-map _ Scalar.i32 _ v (Reads-signed 3 v t))
  Reads-image (Scalar.i64 v) t k =
      Reads-tagged _ _ _ (Reads-map _ Scalar.i64 _ v (Reads-signed 7 v t))
  Reads-image (Scalar.i128 v) t k =
      Reads-tagged _ _ _ (Reads-map _ Scalar.i128 _ v (Reads-signed 15 v t))
  Reads-image (Scalar.u8 v) t k = Reads-tagged _ _ _ (Reads-map _ Scalar.u8 _ v (Reads-u8 v))
  Reads-image (Scalar.u16 v) t k =
      Reads-tagged _ _ _ (Reads-map _ Scalar.u16 _ v (Reads-unsigned 2 v t))
  Reads-image (Scalar.u32 v) t k = Reads-tagged _ _ _ (Reads-map _ Scalar.u32 _ v (Reads-u32 v t))
  Reads-image (Scalar.u64 v) t k = Reads-tagged _ _ _ (Reads-map _ Scalar.u64 _ v (Reads-u64 v t))
  Reads-image (Scalar.u128 v) t k =
      Reads-tagged _ _ _ (Reads-map _ Scalar.u128 _ v (Reads-unsigned 16 v t))
  Reads-image (Scalar.f32 v) t k =
      Reads-tagged _ _ _ (Reads-map _ Scalar.f32 _ v (Reads-unsigned 4 v t))
  Reads-image (Scalar.f64 v) t k =
      Reads-tagged _ _ _ (Reads-map _ Scalar.f64 _ v (Reads-unsigned 8 v t))
  Reads-image (Scalar.str v) t k = rw (put_bytes-run _ v k) (Reads-tagged _ _ _ (Reads-str v t.1 k))
  Reads-image (Scalar.bytes v) t k =
      rw (put_bytes-run _ v k) (Reads-tagged _ _ _ (Reads-map _ Scalar.bytes _ v (Reads-bytes v k)))
  Reads-image (Scalar.uuid v) t k = Reads-tagged _ _ _ (
      Reads-bind_last _ _ _ (as_bytes v) (Scalar.uuid v)
        (Reads-array 16 (as_bytes v) (crates.as_bytes-IsArray v).0)
        (rw (crates.from_bytes-as_bytes v) (Reads-pure (Scalar.uuid v))))
  Reads-image (Scalar.date v) t k =
      Reads-tagged _ _ _ (Reads-map _ Scalar.date _ v (Reads-decode_date v))
  Reads-image (Scalar.time v) t k =
      Reads-tagged _ _ _ (Reads-map _ Scalar.time _ v (Reads-decode_time v k))
  Reads-image (Scalar.datetime v) t k =
      let d = crates.naive_utc_date v in
      let c = crates.naive_utc_time v in
      Reads-tagged _ _ _ (
        rw
          (append_assoc (int_bytes 3 (num_days_from_ce d))
            (be_bytes 4 (num_seconds_from_midnight c)) (be_bytes 4 (nanosecond c)))
          (Reads-bind _ _ _ (time_bytes c) d (Scalar.datetime v) (Reads-decode_date d) (
            Reads-bind_last _ _ _ c (Scalar.datetime v) (Reads-decode_time c k)
              (rw (crates.and_utc-naive_utc v) (Reads-pure (Scalar.datetime v))))))
  Reads-image (Scalar.duration v) t k =
      Reads-tagged _ _ _ (Reads-map _ Scalar.duration _ v (Reads-decode_duration v))

  pub encode-append : (buf : List ℕ) (s : Scalar) → IsStorable s → encode buf s ≡ buf ++ image s
  unfolding encode
  encode-append buf (Scalar.str v) k =
      rw (put_bytes-run _ v k, put_bytes-run _ v k) (append_assoc buf (Tag.str ∷ []) (run v))
  encode-append buf (Scalar.bytes v) k =
      rw (put_bytes-run _ v k, put_bytes-run _ v k) (append_assoc buf (Tag.bytes ∷ []) (run v))
  encode-append buf Scalar.null k = refl
  encode-append buf s k = simp append_assoc

  -- What `encode` appended to a buffer, `decode` reads back from where it begins, whatever follows,
  -- and it stops where the encoding ends: for every well-typed scalar that can be stored.
  pub decode-encode :
      (buf : List ℕ) (s : Scalar) (rest : List ℕ)
      → IsWellTyped s
      → IsStorable s
      → length (encode buf s ++ rest) < 2 ^ 64
      → decode (record { buf = encode buf s ++ rest; pos = length buf })
        ≡ ok (s, record { buf = encode buf s ++ rest; pos = length (encode buf s) })
  decode-encode buf s rest t k fits =
      let fits' = rw (encode-append buf s k) at fits in
      rw (encode-append buf s k) (Reads-after decode buf (image s) rest s (Reads-image s t k) fits')
