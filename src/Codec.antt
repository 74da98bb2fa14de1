-- ===== src/Codec.antt =====
-- crates/stratodb/src/codec/: the putters and the forward-only reader. A `&mut Reader` is passed
-- on beside the result; every caller gives up at the first error.
pub mod Reads
pub mod Safety
pub mod Lengths
use stratodb.Base.{
  ℕ, ◌+◌, ◌%◌, ◌^◌, ◌≡◌, List, [], ◌∷◌, ◌++◌, Option, none, some, ltb, if◌then◌else◌, length, take,
  drop, be_bytes, be_value,
}
use stratodb.Error.{SdbResult, ok, err, panic, corrupt, ◌>>=◌ as bind_result}

-- `buf.push(b)` and `buf.extend_from_slice(bytes)`.
abbrev pub push : List ℕ → ℕ → List ℕ
push buf b = buf ++ b ∷ []

abbrev pub extend : List ℕ → List ℕ → List ℕ
extend buf bytes = buf ++ bytes

unfoldable pub put_u32 : List ℕ → ℕ → List ℕ
put_u32 buf v = extend buf (be_bytes 4 v)

-- The length is cut to 32 bits, as `as u32` does.
unfoldable pub put_bytes : List ℕ → List ℕ → List ℕ
unfolding put_u32
put_bytes buf bytes = extend (put_u32 buf (length bytes % 2 ^ 32)) bytes

pub record Reader : Type 0 where
  pub buf : List ℕ
  pub pos : ℕ

abbrev pub Decode {ℓ} : Type ℓ → Type ℓ
Decode A = Reader → SdbResult (A × Reader)

infixl 5 ◌>>=◌
unfoldable pub ◌>>=◌ {ℓ κ} : {A : Type ℓ} {B : Type κ} → Decode A → (A → Decode B) → Decode B
◌>>=◌ d f r = bind_result (d r) (λ p. f p.0 p.1)

module _ {ℓ} {A : Type ℓ} where
  unfoldable pub pure : A → Decode A
  pure a r = ok (a, r)

  unfoldable pub lift : SdbResult A → Decode A
  lift result r = bind_result result (λ a. ok (a, r))

unfoldable pub new : List ℕ → Reader
new buf = record { buf = buf; pos = 0 }

-- `checked_add` is of 64-bit machine words.
unfoldable pub take_bytes : ℕ → Decode (List ℕ)
take_bytes n r =
    let end = r.pos + n in
    if ltb end (2 ^ 64)
    then if ltb (length r.buf) end
      then err corrupt
      else ok (take n (drop r.pos r.buf), record r { pos = end })
    else err corrupt

-- `slice[0]`.
abbrev pub first_byte : List ℕ → SdbResult ℕ
first_byte [] = panic
first_byte (b ∷ bs) = ok b

-- `slice.try_into().unwrap()` to `[u8; n]`.
abbrev pub to_array : ℕ → List ℕ → SdbResult (List ℕ)
to_array n slice =
    if ltb (length slice) n then panic else if ltb n (length slice) then panic else ok slice

unfoldable pub u8 : Decode ℕ
unfolding take_bytes ◌>>=◌ lift
u8 = take_bytes 1 >>= λ slice. lift (first_byte slice)

unfoldable pub array : ℕ → Decode (List ℕ)
unfolding take_bytes ◌>>=◌ lift
array n = take_bytes n >>= λ slice. lift (to_array n slice)

unfoldable pub u32 : Decode ℕ
unfolding array ◌>>=◌ pure
u32 = array 4 >>= λ bytes. pure (be_value bytes)

unfoldable pub u64 : Decode ℕ
unfolding array ◌>>=◌ pure
u64 = array 8 >>= λ bytes. pure (be_value bytes)

unfoldable pub bytes : Decode (List ℕ)
unfolding u32 take_bytes ◌>>=◌
bytes = u32 >>= λ n. take_bytes n
