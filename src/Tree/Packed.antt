-- ===== src/Tree/Packed.antt =====
-- The reads of crates/stratodb/src/tree.rs that go on inside the blob of a packed entity.
use stratodb.Base.{Option, none, some}
use stratodb.Error.{SPath, SdbResult, ok, err, corrupt, ◌>>=◌}
use stratodb.Crates.{Crates}
use stratodb.Key.{Skey}
use stratodb.Key
use stratodb.Scalar.{Scalar}
use stratodb.Node.{Node, NodeKind}
use stratodb.Engine.Backend.{ReadNodes}
use stratodb.Engine.Mem.{MemNodes, mem_reads}
use stratodb.Engine.Archived.{Rkyv, from_blob}
use stratodb.Tree.{
  missing, plain, packed, read_node, locate, leaf_at, kind_of, resolve_from, leaf_scalar_opt,
}

module _ ⦃crates : Crates⦄ ⦃rkyv : Rkyv⦄ (R : ReadNodes) where
  unfoldable pub decode_packed : R.Store → Skey → SdbResult MemNodes
  unfolding read_node from_blob
  decode_packed s k = read_node R s k >>= λ found. elim found [
    | some (Node.packed root blob) ↦ from_blob blob
    | _ ↦ err corrupt
  ]

  -- A read of the node that `rel` leads to inside a decoded blob.
  unfoldable pub inside :
      {A : Type 0} → MemNodes → SPath → (Skey → SdbResult (Option A)) → SdbResult (Option A)
  unfolding resolve_from mem_reads
  inside mem rel f = resolve_from mem_reads mem Key.root rel >>= λ found. elim found [
    | some k ↦ f k
    | none ↦ ok none
  ]

  unfoldable pub get_scalar : R.Store → SPath → SdbResult (Option Scalar)
  unfolding locate leaf_at decode_packed inside mem_reads
  get_scalar s path = locate R s path >>= λ found. elim found [
    | missing ↦ ok none
    | plain k ↦ leaf_at R s k path
    | packed entity rel ↦
        decode_packed s entity >>= λ mem. inside mem rel (λ k. leaf_at mem_reads mem k path)
  ]

  unfoldable pub kind : R.Store → SPath → SdbResult (Option NodeKind)
  unfolding locate kind_of decode_packed inside mem_reads
  kind s path = locate R s path >>= λ found. elim found [
    | missing ↦ ok none
    | plain k ↦ kind_of R s k
    | packed entity rel ↦
        decode_packed s entity >>= λ mem. inside mem rel (λ k. kind_of mem_reads mem k)
  ]

  unfoldable pub entity_leaf : R.Store → Skey → SPath → SdbResult (Option Scalar)
  unfolding read_node decode_packed inside resolve_from leaf_scalar_opt mem_reads
  entity_leaf s entity rel = read_node R s entity >>= λ found. elim found [
    | some (Node.packed _ _) ↦
        decode_packed s entity >>= λ mem. inside mem rel (λ k. leaf_scalar_opt mem_reads mem k)
    | _ ↦ resolve_from R s entity rel >>= λ found. elim found [
      | some k ↦ leaf_scalar_opt R s k
      | none ↦ ok none
    ]
  ]
