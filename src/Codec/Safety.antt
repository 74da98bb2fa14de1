-- ===== src/Codec/Safety.antt =====
-- What the reader does on any input: it never panics, stays inside its buffer, and returns the
-- bytes that it passed.
use stratodb.Base.{
  ℕ, zero, suc, ◌+◌, ◌≤◌, ◌<◌, ◌≡◌, refl, List, [], ◌∷◌, some, get_elem?, ltb→lt, length, take,
  drop, length-take, length-drop, ltb, be_value, arith, ◌∙◌, Bool-cases, inl, inr,
}
use stratodb.Error.{SdbResult, SdbError, ok, err, panic, ◌>>=◌ as bind_result}
use stratodb.Codec.Reads.{to_array-length}
use stratodb.Codec.{
  Reader, Decode, ◌>>=◌, pure, lift, take_bytes, first_byte, to_array, u8, u32, u64, array, bytes,
}

-- On a reader whose cursor is in its buffer, `d` fails with an error, or returns
-- an `a` with `P a` and leaves the cursor in the same buffer, no further back. It does not panic.
abbrev pub Ends {ℓ} : {A : Type ℓ} → (A → Type 0) → Reader → SdbResult (A × Reader) → Type 0
Ends P r (ok (a, r')) = P a × (r'.buf ≡ r.buf) × (r.pos ≤ r'.pos) × (r'.pos ≤ length r'.buf)
Ends P r (err e) = Unit
Ends P r panic = ⊥

abbrev pub Any : {A : Type 0} → A → Type 0
Any a = Unit

pub record Safe {A : Type 0} (P : A → Type 0) (d : Decode A) : Type 0 where
  pub at : (r : Reader) → r.pos ≤ length r.buf → Ends P r (d r)

Ends-Any :
    {A : Type 0} (P : A → Type 0) (r : Reader) (result : SdbResult (A × Reader))
    → Ends P r result
    → Ends Any r result
Ends-Any P r (ok (a, r')) (p, same, le, within) = (tt, same, le, within)
Ends-Any P r (err e) h = h
Ends-Any P r panic h = h

module _ {A : Type 0} {P : A → Type 0} where
  pub Safe-pure : (a : A) → P a → Safe P (pure a)
  unfolding pure
  Safe-pure a p = record { at = λ r h. (p, refl, omega arith, h) }

  pub Safe-weaken : (d : Decode A) → Safe P d → Safe Any d
  Safe-weaken d s = record { at = λ r h. Ends-Any P r (d r) (s.at r h) }

  pub Safe-lift_ok : (a : A) → P a → Safe P (lift (ok a))
  unfolding lift
  Safe-lift_ok a p = record { at = λ r h. (p, refl, omega arith, h) }

  pub Safe-lift_err : (e : SdbError) → Safe P (lift (err e))
  unfolding lift
  Safe-lift_err e = record { at = λ r h. tt }

module _ {A : Type 0} {P : A → Type 0} {B : Type 0} {Q : B → Type 0} where
  pub Ends-bind :
      (r : Reader) (result : SdbResult (A × Reader)) (f : A → Decode B)
      → Ends P r result
      → ((a : A) → P a → Safe Q (f a))
      → Ends Q r (bind_result result (λ p. f p.0 p.1))
  Ends-bind r (ok (a, r')) f (p, same, le, within) hf =
      Ends-weaken r r' (f a r') same le ((hf a p).at r' within)
    where
      Ends-weaken :
          (r r' : Reader) (result : SdbResult (B × Reader))
          → r'.buf ≡ r.buf
          → r.pos ≤ r'.pos
          → Ends Q r' result
          → Ends Q r result
      Ends-weaken r r' (ok (b, s)) same le (q, same', le', within) =
          (q, same' ∙ same, omega arith, within)
      Ends-weaken r r' (err e) same le h = h
      Ends-weaken r r' panic same le h = h
  Ends-bind r (err e) f h hf = h
  Ends-bind r panic f h hf = absurd h

  pub Safe-bind :
      (d : Decode A) (f : A → Decode B)
      → Safe P d
      → ((a : A) → P a → Safe Q (f a))
      → Safe Q (d >>= f)
  unfolding ◌>>=◌
  Safe-bind d f hd hf = record { at = λ r h. Ends-bind r (d r) f (hd.at r h) hf }

abbrev pub HasLength : ℕ → List ℕ → Type 0
HasLength n bs = length bs ≡ n

length-slice :
    (n pos : ℕ) (buf : List ℕ)
    → pos ≤ length buf
    → pos + n ≤ length buf
    → HasLength n (take n (drop pos buf))
length-slice n pos buf h k = length-take n (drop pos buf) (omega (arith, length-drop pos buf))

pub Safe-take_bytes : (n : ℕ) → Safe (HasLength n) (take_bytes n)
unfolding take_bytes
Safe-take_bytes n = record { at = λ r h. ground (arith, length-slice n r.pos r.buf h) }

Safe-first_byte : (slice : List ℕ) → HasLength 1 slice → Safe Any (lift (first_byte slice))
Safe-first_byte [] h = absurd (omega arith)
Safe-first_byte (b ∷ bs) h = Safe-lift_ok b tt

Safe-to_array :
    (n : ℕ) (slice : List ℕ) → HasLength n slice → Safe (HasLength n) (lift (to_array n slice))
Safe-to_array n slice h = rw (to_array-length n slice h) (Safe-lift_ok slice h)

pub Safe-u8 : Safe Any u8
unfolding u8
Safe-u8 = Safe-bind _ _ (Safe-take_bytes 1) Safe-first_byte

pub Safe-array : (n : ℕ) → Safe (HasLength n) (array n)
unfolding array
Safe-array n = Safe-bind _ _ (Safe-take_bytes n) (Safe-to_array n)

pub Safe-u32 : Safe Any u32
unfolding u32
Safe-u32 = Safe-bind _ _ (Safe-array 4) (λ bs h. Safe-pure (be_value bs) tt)

pub Safe-u64 : Safe Any u64
unfolding u64
Safe-u64 = Safe-bind _ _ (Safe-array 8) (λ bs h. Safe-pure (be_value bs) tt)

pub Safe-bytes : Safe Any bytes
unfolding bytes
Safe-bytes = Safe-bind _ _ Safe-u32 (λ n h. Safe-weaken _ (Safe-take_bytes n))

take_one :
    (xs : List ℕ) (i : ℕ)
    → i < length xs
    → (b : ℕ) × (take 1 (drop i xs) ≡ b ∷ []) × (get_elem? xs i ≡ some b)
take_one [] i h = absurd (omega arith)
take_one (x ∷ xs) zero h = (x, refl, refl)
take_one (x ∷ xs) (suc i) h = take_one xs i (omega arith)

-- `u8` returns the byte at the cursor.
pub u8_at :
    (r : Reader) → r.pos ≤ length r.buf → Ends (λ b. get_elem? r.buf r.pos ≡ some b) r (u8 r)
unfolding u8 take_bytes lift ◌>>=◌
u8_at r h = elim (Bool-cases (ltb r.pos (length r.buf))) [
  | inl more ↦
      let (b, one, here) = take_one r.buf r.pos (ltb→lt _ _ more) in ground (arith, one, here)
  | inr over ↦ ground arith
]

-- A byte, then what depends on it.
pub Ends-u8 :
    {A : Type 0} (f : ℕ → Decode A) (r : Reader)
    → r.pos ≤ length r.buf
    → ((b : ℕ) → get_elem? r.buf r.pos ≡ some b → Safe Any (f b))
    → Ends Any r ((u8 >>= f) r)
unfolding ◌>>=◌
Ends-u8 f r h hf = Ends-bind r (u8 r) f (u8_at r h) hf
