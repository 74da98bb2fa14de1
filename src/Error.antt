-- ===== src/Error.antt =====
-- crates/stratodb/src/error.rs, and the types of crates/stratodb/src/path/segment.rs and spath.rs
-- that errors carry. The texts of messages are not modelled, nor what an engine error holds.
use Prim.Native.String.{String}
use stratodb.Base.{ℕ, List, Text}

-- One component of a path.
pub data Segment : Type 0 where
  name : Text → Segment
  index : ℕ → Segment

pub record SPath : Type 0 where
  pub segments : List Segment

pub data SdbError : Type 0 where
  engine invalid_path invalid_table_name bad_key corrupt schema_mismatch : SdbError
  path_not_found : SPath → SdbError
  unexpected_node : SPath → String → String → SdbError
  type_mismatch : String → String → SdbError
  index_out_of_range : SPath → ℕ → ℕ → SdbError
  unique_violation index_not_found : Text → SdbError
  index_arity : Text → ℕ → ℕ → SdbError
  cannot_access conversion : SdbError

-- `Result<T, SdbError>`, or a panic.
pub data SdbResult {ℓ} (A : Type ℓ) : Type ℓ where
  ok : A → SdbResult A
  err : SdbError → SdbResult A
  panic : SdbResult A

infixl 5 ◌>>=◌ ◌>>◌
abbrev pub ◌>>=◌ {ℓ κ} : {A : Type ℓ} {B : Type κ} → SdbResult A → (A → SdbResult B) → SdbResult B
ok a >>= f = f a
err e >>= f = err e
panic >>= f = panic

abbrev pub ◌>>◌ {ℓ} : {B : Type ℓ} → SdbResult (Unit {0}) → SdbResult B → SdbResult B
m >> k = m >>= λ _. k
