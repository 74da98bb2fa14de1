-- ===== src/Scalar/Safety.antt =====
-- `Scalar::decode` on bytes of any kind.
use stratodb.Base.{
  ℕ, suc, ℤ, ◌≤◌, ◌≡◌, ◌≢◌, List, [], ◌∷◌, length, Option, none, some, true, false, from_utf8,
  be_value, of_word, ◌==◌, Bool, not, if◌then◌else◌, arith, get_elem?, ap, subst, append-nil, ◌∙◌,
  ◌++◌, ◌<◌, ◌^◌, IsInt,
}
use stratodb.Error.{panic}
use stratodb.Crates.{Crates}
use stratodb.Codec.{Reader, Decode, ◌>>=◌, pure, lift}
use stratodb.Codec.Reads.{Panics, Panics-lift, Panics-first, Panics-later, Reads-u8, IsAt-after}
use stratodb.Scalar.RoundTrip.{Reads-signed}
use stratodb.Codec.Safety.{
  Safe, Any, Ends, Ends-u8, Safe-pure, Safe-lift_ok, Safe-lift_err, Safe-bind, Safe-weaken, Safe-u8,
  Safe-array, Safe-u32, Safe-u64, Safe-bytes,
}
use stratodb.Scalar.Tag
use stratodb.Scalar.{Scalar}
use stratodb.Scalar.Codec.{
  decode, decode_body, decode_time, decode_date, decode_duration, signed, unsigned, or_corrupt,
  or_panic, int_bytes,
}

Safe-unsigned : (n : ℕ) → Safe Any (unsigned n)
unfolding unsigned
Safe-unsigned n = Safe-bind _ _ (Safe-array n) (λ bs h. Safe-pure (be_value bs) tt)

Safe-signed : (m : ℕ) → Safe Any (signed m)
unfolding signed
Safe-signed m = Safe-bind _ _ (Safe-array (suc m)) (λ bs h. Safe-pure (of_word m (be_value bs)) tt)

Safe-or_corrupt : {A : Type 0} (o : Option A) → Safe Any (lift (or_corrupt o))
Safe-or_corrupt (some a) = Safe-lift_ok a tt
Safe-or_corrupt none = Safe-lift_err _

Safe-map : {A B : Type 0} (d : Decode A) (f : A → B) → Safe Any d → Safe Any (d >>= λ x. pure (f x))
Safe-map d f h = Safe-bind d _ h (λ a _. Safe-pure (f a) tt)

-- One arm of the match on the tag.
Safe-if :
    {A : Type 0} (b : Bool) {d e : Decode A}
    → Safe Any d
    → Safe Any e
    → Safe Any (if b then d else e)
Safe-if true hd he = hd
Safe-if false hd he = he

Safe-skip :
    {A : Type 0} (tag k : ℕ) (d : Decode A) {e : Decode A}
    → tag ≢ k
    → Safe Any e
    → Safe Any (if tag == k then d else e)
Safe-skip tag k d h he = rw (other tag k h) he
  where
    other : (a b : ℕ) → a ≢ b → (a == b) ≡ false
    other a b h = ground arith

-- The stored bytes of a duration of `secs` and `nanos`.
abbrev pub duration_image : ℤ → ℤ → List ℕ
duration_image secs nanos = Tag.duration ∷ (int_bytes 7 secs ++ int_bytes 3 nanos)

module _ ⦃crates : Crates⦄ where
  Safe-decode_time : Safe Any decode_time
  unfolding decode_time
  Safe-decode_time =
      Safe-bind _ _ Safe-u32 (λ secs _. Safe-bind _ _ Safe-u32 (λ nanos _. Safe-or_corrupt _))

  Safe-decode_date : Safe Any decode_date
  unfolding decode_date
  Safe-decode_date = Safe-bind _ _ (Safe-signed 3) (λ days _. Safe-or_corrupt _)

  Safe-text : Safe Any (decode_body Tag.str)
  unfolding decode_body
  Safe-text =
      Safe-bind _ _ Safe-bytes
        (λ v _. Safe-map (lift (or_corrupt (from_utf8 v))) Scalar.str (Safe-or_corrupt _))

  Safe-uuid : Safe Any (decode_body Tag.uuid)
  unfolding decode_body
  Safe-uuid = Safe-map _ _ (Safe-weaken _ (Safe-array 16))

  Safe-datetime : Safe Any (decode_body Tag.datetime)
  unfolding decode_body
  Safe-datetime = Safe-bind _ _ Safe-decode_date (λ d _. Safe-map _ _ Safe-decode_time)

  Safe-decode_body : (tag : ℕ) → tag ≢ Tag.duration → Safe Any (decode_body tag)
  unfolding decode_body
  Safe-decode_body tag h = Safe-if (tag == Tag.null) (Safe-pure Scalar.null tt) (
      Safe-if (tag == Tag.bool) (Safe-map _ (λ b. Scalar.bool (not (b == 0))) Safe-u8) (
        Safe-if (tag == Tag.i8) (Safe-map _ Scalar.i8 (Safe-signed 0)) (
          Safe-if (tag == Tag.i16) (Safe-map _ Scalar.i16 (Safe-signed 1)) (
            Safe-if (tag == Tag.i32) (Safe-map _ Scalar.i32 (Safe-signed 3)) (
              Safe-if (tag == Tag.i64) (Safe-map _ Scalar.i64 (Safe-signed 7)) (
                Safe-if (tag == Tag.i128) (Safe-map _ Scalar.i128 (Safe-signed 15)) (
                  Safe-if (tag == Tag.u8) (Safe-map _ Scalar.u8 Safe-u8) (
                    Safe-if (tag == Tag.u16) (Safe-map _ Scalar.u16 (Safe-unsigned 2)) (
                      Safe-if (tag == Tag.u32) (Safe-map _ Scalar.u32 Safe-u32) (
                        Safe-if (tag == Tag.u64) (Safe-map _ Scalar.u64 Safe-u64) (
                          Safe-if (tag == Tag.u128) (Safe-map _ Scalar.u128 (Safe-unsigned 16)) (
                            Safe-if (tag == Tag.f32) (Safe-map _ Scalar.f32 (Safe-unsigned 4)) (
                              Safe-if (tag == Tag.f64) (Safe-map _ Scalar.f64 (Safe-unsigned 8)) (
                                Safe-if (tag == Tag.str) Safe-text (
                                  Safe-if (tag == Tag.bytes) (Safe-map _ Scalar.bytes Safe-bytes) (
                                    Safe-if (tag == Tag.uuid) Safe-uuid (
                                      Safe-if (tag == Tag.date)
                                        (Safe-map _ Scalar.date Safe-decode_date)
                                        (Safe-if (tag == Tag.time)
                                          (Safe-map _ Scalar.time Safe-decode_time)
                                          (Safe-if (tag == Tag.datetime) Safe-datetime (
                                            Safe-skip tag Tag.duration _ h
                                              (Safe-lift_err _)))))))))))))))))))))

  Panics-body :
      (secs nanos : ℤ)
      → IsInt 7 secs
      → IsInt 3 nanos
      → crates.seconds_opt secs ≡ none
      → Panics decode_duration (int_bytes 7 secs ++ int_bytes 3 nanos)
  unfolding decode_duration
  Panics-body secs nanos hs hn none_opt =
      Panics-later _ _ (int_bytes 7 secs) (int_bytes 3 nanos) secs (Reads-signed 7 secs hs) (
        subst (Panics _) (append-nil (int_bytes 3 nanos)) (
          Panics-later _ _ (int_bytes 3 nanos) [] nanos (Reads-signed 3 nanos hn)
            (Panics-first _ _ [] (Panics-lift (or_panic (crates.seconds_opt secs)) (rw none_opt)))))

  Panics-decode :
      (secs nanos : ℤ)
      → IsInt 7 secs
      → IsInt 3 nanos
      → crates.seconds_opt secs ≡ none
      → Panics decode (duration_image secs nanos)
  unfolding decode decode_body
  Panics-decode secs nanos hs hn none_opt =
      Panics-later _ _ (Tag.duration ∷ []) _ Tag.duration (Reads-u8 Tag.duration)
        (Panics-first _ (λ v. pure (Scalar.duration v)) _ (Panics-body secs nanos hs hn none_opt))

  -- On any bytes whose tag is not that of a duration, well formed or not, `decode` does not panic:
  -- it fails with an error, or returns a scalar and leaves the cursor in the same buffer, no
  -- further back.
  pub decode_safe :
      (r : Reader)
      → r.pos ≤ length r.buf
      → get_elem? r.buf r.pos ≢ some Tag.duration
      → Ends Any r (decode r)
  unfolding decode
  decode_safe r within h =
      Ends-u8 decode_body r within (λ tag at. Safe-decode_body tag (λ e. h (at ∙ ap some e)))

  -- Bytes with the tag of a duration whose seconds chrono does not take make `decode` panic.
  pub decode_panics :
      (before rest : List ℕ) (secs nanos : ℤ)
      → IsInt 7 secs
      → IsInt 3 nanos
      → crates.seconds_opt secs ≡ none
      → length ((before ++ duration_image secs nanos) ++ rest) < 2 ^ 64
      → decode (record { buf = (before ++ duration_image secs nanos) ++ rest; pos = length before })
        ≡ panic
  decode_panics before rest secs nanos hs hn none_opt fits =
      (Panics-decode secs nanos hs hn none_opt).at _ rest
        (IsAt-after before (duration_image secs nanos) rest fits)
