-- ===== src/Key.antt =====
-- crates/stratodb/src/key.rs: the primary key of a node.
use Prim.Native.Nat.{◌/◌, ◌*◌}
use stratodb.Base.{
  ℕ, ◌+◌, ◌%◌, ◌^◌, ◌≡◌, Bool, true, text_eq, text_eq_sound, text_eq_refl, sym, ap, ◌∙◌, List,
  length, bit_xor, bit_or, ◌==◌, if◌then◌else◌,
}
use stratodb.Error.{SdbResult, ok, err, bad_key}
use stratodb.Crates.{Crates, IsArray}

-- One draw of splitmix64: the number and the next state, as 64-bit words.
unfoldable pub splitmix64 : ℕ → ℕ × ℕ
splitmix64 state =
    let next = (state + 0x9E37_79B9_7F4A_7C15) % 2 ^ 64 in
    let z = bit_xor next (next / 2 ^ 30) * 0xBF58_476D_1CE4_E5B9 % 2 ^ 64 in
    let z' = bit_xor z (z / 2 ^ 27) * 0x94D0_49BB_1331_11EB % 2 ^ 64 in
    (bit_xor z' (z' / 2 ^ 31), next)

module _ ⦃crates : Crates⦄ where
  open crates use {Uuid, as_bytes}

  pub record Skey : Type 0 where
    pub uuid : Uuid

  unfoldable pub root : Skey
  root = record { uuid = crates.nil }

  -- `Skey::generate`, on the generator's state.
  pub generate : ℕ → Skey × ℕ
  generate state =
      let (hi, state') = splitmix64 state in
      let (lo, state'') = splitmix64 state' in
      (record { uuid = crates.from_u128 (bit_or (hi * 2 ^ 64 % 2 ^ 128) lo) }, state'')

  unfoldable pub into_bytes : Skey → List ℕ
  into_bytes k = as_bytes k.uuid

  unfoldable pub from_bytes : List ℕ → Skey
  from_bytes bytes = record { uuid = crates.from_bytes bytes }

  unfoldable pub try_from_bytes : List ℕ → SdbResult Skey
  unfolding from_bytes
  try_from_bytes bytes = if length bytes == 16 then ok (from_bytes bytes) else err bad_key

  -- `==` of the derived `PartialEq`.
  unfoldable pub skey_eq : Skey → Skey → Bool
  unfolding into_bytes
  skey_eq a b = text_eq (into_bytes a) (into_bytes b)

  pub into_bytes-IsArray : (k : Skey) → IsArray 16 (into_bytes k)
  unfolding into_bytes
  into_bytes-IsArray k = crates.as_bytes-IsArray k.uuid

  pub from_bytes-into_bytes : (k : Skey) → from_bytes (into_bytes k) ≡ k
  unfolding into_bytes from_bytes
  from_bytes-into_bytes k = λ i. record { uuid = crates.from_bytes-as_bytes k.uuid i }

  pub skey_eq_sound : (a b : Skey) → skey_eq a b ≡ true → a ≡ b
  unfolding skey_eq
  skey_eq_sound a b h =
      sym (from_bytes-into_bytes a)
      ∙ ap from_bytes (text_eq_sound (into_bytes a) (into_bytes b) h)
      ∙ from_bytes-into_bytes b

  pub skey_eq_refl : (a : Skey) → skey_eq a a ≡ true
  unfolding skey_eq
  skey_eq_refl a = text_eq_refl (into_bytes a)

  pub into_bytes-from_bytes : (bs : List ℕ) → IsArray 16 bs → into_bytes (from_bytes bs) ≡ bs
  unfolding into_bytes from_bytes
  into_bytes-from_bytes bs h = crates.as_bytes-from_bytes bs h
