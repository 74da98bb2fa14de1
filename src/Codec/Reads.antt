-- ===== src/Codec/Reads.antt =====
-- What decoders read back: rules that follow the shape of a decoder.
use stratodb.Base.{
  ℕ, zero, suc, ◌+◌, ◌≤◌, ◌<◌, ◌^◌, ◌%◌, ◌≡◌, refl, ap, sym, ◌∙◌, List, [], ◌∷◌, ◌++◌, length,
  length-append, drop, take-append, drop-append, length-drop, subst, append_assoc, append-nil,
  be_bytes, length-be_bytes, be_value-be_bytes, arith,
}
use native.Mathlib.Nat.{zero-add, add-zero, suc-add, add_assoc}
use stratodb.Error.{SdbResult, ok, panic}
use stratodb.Codec.{
  Reader, Decode, ◌>>=◌, pure, lift, take_bytes, to_array, u8, u32, u64, array, bytes, put_bytes,
  new,
}

-- A position in a buffer, with the bytes that follow it.
pub record IsAt (r : Reader) (rest : List ℕ) : Type 0 where
  pub fits : length r.buf < 2 ^ 64
  pub within : r.pos ≤ length r.buf
  pub follows : drop r.pos r.buf ≡ rest

abbrev pub advance : ℕ → Reader → Reader
advance n r = record r { pos = r.pos + n }

-- `d` reads exactly `bs` off the front, whatever follows, and returns `a`.
pub record Reads {ℓ} {A : Type ℓ} (d : Decode A) (bs : List ℕ) (a : A) : Type ℓ where
  pub at : (r : Reader) (rest : List ℕ) → IsAt r (bs ++ rest) → d r ≡ ok (a, advance (length bs) r)

drop-drop {ℓ} : {A : Type ℓ} (m n : ℕ) (xs : List A) → drop n (drop m xs) ≡ drop (m + n) xs
drop-drop zero n xs = rw zero-add
drop-drop (suc m) zero [] = rw add-zero
drop-drop (suc m) (suc n) [] = rw suc-add
drop-drop (suc m) n (x ∷ xs) = rw suc-add (drop-drop m n xs)

IsAt-length : (r : Reader) (rest : List ℕ) → IsAt r rest → length r.buf ≡ r.pos + length rest
IsAt-length r rest h =
    omega (arith, h.within, length-drop r.pos r.buf, ap (length {A = ℕ}) h.follows)

pub IsAt-advance :
    (r : Reader) (bs rest : List ℕ) → IsAt r (bs ++ rest) → IsAt (advance (length bs) r) rest
IsAt-advance r bs rest h = record {
  fits = h.fits;
  within = omega (arith, IsAt-length r (bs ++ rest) h, length-append bs rest);
  follows = sym (drop-drop r.pos (length bs) r.buf) ∙ rw h.follows (drop-append bs rest);
}

pub IsAt-new : (bs : List ℕ) → length bs < 2 ^ 64 → IsAt (new bs) bs
unfolding new
IsAt-new bs h = record { fits = h; within = omega arith; follows = refl }

-- A read in the middle of a buffer.
pub IsAt-after :
    (buf mid rest : List ℕ)
    → length ((buf ++ mid) ++ rest) < 2 ^ 64
    → IsAt (record { buf = (buf ++ mid) ++ rest; pos = length buf }) (mid ++ rest)
IsAt-after buf mid rest fits = record {
  fits = fits;
  within = omega (arith, length-append (buf ++ mid) rest, length-append buf mid);
  follows = rw (append_assoc buf mid rest) (drop-append buf (mid ++ rest));
}

pub Reads-after {ℓ} :
    {A : Type ℓ} (d : Decode A) (buf mid rest : List ℕ) (a : A)
    → Reads d mid a
    → length ((buf ++ mid) ++ rest) < 2 ^ 64
    → d (record { buf = (buf ++ mid) ++ rest; pos = length buf })
      ≡ ok (a, record { buf = (buf ++ mid) ++ rest; pos = length (buf ++ mid) })
Reads-after d buf mid rest a h fits =
    h.at _ rest (IsAt-after buf mid rest fits) ∙ rw (length-append buf mid)

module _ {ℓ} {A : Type ℓ} where
  pub Reads-pure : (a : A) → Reads (pure a) [] a
  unfolding pure
  Reads-pure a = record { at = λ r rest h. rw add-zero }

  pub Reads-lift : (result : SdbResult A) (a : A) → result ≡ ok a → Reads (lift result) [] a
  unfolding lift
  Reads-lift result a e = record { at = λ r rest h. rw (e, add-zero) }

module _ {ℓ κ} {A : Type ℓ} {B : Type κ} where
  pub Reads-bind :
      (d : Decode A) (f : A → Decode B) (bs cs : List ℕ) (a : A) (b : B)
      → Reads d bs a
      → Reads (f a) cs b
      → Reads (d >>= f) (bs ++ cs) b
  unfolding ◌>>=◌
  Reads-bind d f bs cs a b hd hf = record {
    at = λ r rest h.
        let here : IsAt r (bs ++ (cs ++ rest)) = subst (IsAt r) (append_assoc bs cs rest) h in
        rw (hd.at r (cs ++ rest) here) (
          hf.at (advance (length bs) r) rest (IsAt-advance r bs (cs ++ rest) here)
          ∙ rw (length-append, add_assoc));
  }

pub Reads-take_bytes : (bs : List ℕ) → Reads (take_bytes (length bs)) bs bs
unfolding take_bytes
Reads-take_bytes bs = record {
  at = λ r rest h.
      let within = IsAt-length r (bs ++ rest) h in
      ground (arith, within, h.fits, length-append bs rest, h.follows, take-append bs rest);
}

-- A read that ends in a step without input.
pub Reads-bind_last :
    {A B : Type 0} (d : Decode A) (f : A → Decode B) (bs : List ℕ) (a : A) (b : B)
    → Reads d bs a
    → Reads (f a) [] b
    → Reads (d >>= f) bs b
Reads-bind_last d f bs a b hd hf =
    subst (λ xs. Reads (d >>= f) xs b) (append-nil bs) (Reads-bind d f bs [] a b hd hf)

pub Reads-u8 : (b : ℕ) → Reads u8 (b ∷ []) b
unfolding u8
Reads-u8 b =
    Reads-bind_last _ _ (b ∷ []) (b ∷ []) b (Reads-take_bytes (b ∷ [])) (Reads-lift _ b refl)

pub to_array-length : (n : ℕ) (slice : List ℕ) → length slice ≡ n → to_array n slice ≡ ok slice
to_array-length n slice h = ground arith

pub Reads-array : (n : ℕ) (bs : List ℕ) → length bs ≡ n → Reads (array n) bs bs
unfolding array
Reads-array n bs e =
    Reads-bind_last _ _ bs bs bs (subst (λ k. Reads (take_bytes k) bs bs) e (Reads-take_bytes bs))
      (Reads-lift _ bs (to_array-length n bs e))

pub Reads-u32 : (v : ℕ) → v < 2 ^ 32 → Reads u32 (be_bytes 4 v) v
unfolding u32
Reads-u32 v h =
    Reads-bind_last _ _ (be_bytes 4 v) (be_bytes 4 v) v
      (Reads-array 4 (be_bytes 4 v) (length-be_bytes 4 v))
      (rw (be_value-be_bytes 4 v h) (Reads-pure v))

pub Reads-u64 : (v : ℕ) → v < 2 ^ 64 → Reads u64 (be_bytes 8 v) v
unfolding u64
Reads-u64 v h =
    Reads-bind_last _ _ (be_bytes 8 v) (be_bytes 8 v) v
      (Reads-array 8 (be_bytes 8 v) (length-be_bytes 8 v))
      (rw (be_value-be_bytes 8 v h) (Reads-pure v))

-- `d` panics on input that begins with `bs`.
pub record Panics {ℓ} {A : Type ℓ} (d : Decode A) (bs : List ℕ) : Type ℓ where
  pub at : (r : Reader) (rest : List ℕ) → IsAt r (bs ++ rest) → d r ≡ panic

pub Panics-lift : {A : Type 0} (result : SdbResult A) → result ≡ panic → Panics (lift result) []
unfolding lift
Panics-lift result e = record { at = λ r rest h. rw e }

module _ {A B : Type 0} where
  pub Panics-first :
      (d : Decode A) (f : A → Decode B) (bs : List ℕ) → Panics d bs → Panics (d >>= f) bs
  unfolding ◌>>=◌
  Panics-first d f bs h = record { at = λ r rest here. rw (h.at r rest here) }

  pub Panics-later :
      (d : Decode A) (f : A → Decode B) (bs cs : List ℕ) (a : A)
      → Reads d bs a
      → Panics (f a) cs
      → Panics (d >>= f) (bs ++ cs)
  unfolding ◌>>=◌
  Panics-later d f bs cs a hd hf = record {
    at = λ r rest h.
        let here : IsAt r (bs ++ (cs ++ rest)) = subst (IsAt r) (append_assoc bs cs rest) h in
        rw (hd.at r (cs ++ rest) here)
          (hf.at (advance (length bs) r) rest (IsAt-advance r bs (cs ++ rest) here));
  }

-- What `put_bytes` appends, for a run of less than 2^32 bytes.
abbrev pub run : List ℕ → List ℕ
run bs = be_bytes 4 (length bs) ++ bs

pub put_bytes-run : (buf bs : List ℕ) → length bs < 2 ^ 32 → put_bytes buf bs ≡ buf ++ run bs
unfolding put_bytes
put_bytes-run buf bs h =
    let small : length bs % 2 ^ 32 ≡ length bs = omega arith in
    rw small (append_assoc buf (be_bytes 4 (length bs)) bs)

pub Reads-bytes : (bs : List ℕ) → length bs < 2 ^ 32 → Reads bytes (run bs) bs
unfolding bytes
Reads-bytes bs h =
    Reads-bind _ _ (be_bytes 4 (length bs)) bs (length bs) bs (Reads-u32 (length bs) h)
      (Reads-take_bytes bs)

pub ruleset reads_rules = (Reads-pure, Reads-u8, Reads-array, Reads-u32, Reads-u64, Reads-bytes)
