-- ===== src/Txn/Write/Lookups.antt =====
-- The reads inside a write transaction, of crates/stratodb/src/txn/write.rs, on the table once it is
-- open. They see what the transaction has written and use no cache.
use stratodb.Base.{ℕ, List, Option, Text}
use stratodb.Error.{Segment, SPath, SdbResult}
use stratodb.Crates.{Crates}
use stratodb.Key.{Skey}
use stratodb.Scalar.{Scalar}
use stratodb.Node.{NodeKind}
use stratodb.Engine.Backend.{ReadNodes}
use stratodb.Engine.Archived.{Rkyv}
use stratodb.Tree.Packed.{get_scalar, kind}
use stratodb.Tree.{resolve, child_key, scalar_at, kind_of, list_len, object_keys}

module _ ⦃crates : Crates⦄ ⦃rkyv : Rkyv⦄ (R : ReadNodes) (table : R.Store) where
  unfoldable pub lookup_path : SPath → SdbResult (Option Skey)
  unfolding resolve
  lookup_path path = resolve R table path

  unfoldable pub lookup_child : Skey → Segment → SdbResult (Option Skey)
  unfolding child_key
  lookup_child parent seg = child_key R table parent seg

  unfoldable pub lookup_scalar : Skey → SdbResult Scalar
  unfolding scalar_at
  lookup_scalar k = scalar_at R table k

  unfoldable pub lookup_kind : Skey → SdbResult (Option NodeKind)
  unfolding kind_of
  lookup_kind k = kind_of R table k

  unfoldable pub lookup_len : Skey → SdbResult ℕ
  unfolding list_len
  lookup_len k = list_len R table k

  unfoldable pub lookup_object_keys : Skey → SdbResult (List Text)
  unfolding object_keys
  lookup_object_keys k = object_keys R table k

  unfoldable pub lookup_scalar_at : SPath → SdbResult (Option Scalar)
  unfolding get_scalar
  lookup_scalar_at path = get_scalar R table path

  unfoldable pub kind_at : SPath → SdbResult (Option NodeKind)
  unfolding kind
  kind_at path = kind R table path
