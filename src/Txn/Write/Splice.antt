-- ===== src/Txn/Write/Splice.antt =====
-- Storing a scalar at a path, of crates/stratodb/src/txn/write.rs (`put_scalar_path`), also inside a packed
-- entity: a leaf whose encoding keeps its length is patched in the bytes of the blob. The addresses in
-- an archive are parameters, and so is where the engine's table is. A blob that is no archive
-- is read without a check there, which is undefined in the source and a panic here.
use stratodb.Base.{
  ℕ, List, [], ◌++◌, ◌+◌, ◌-◌, ◌==◌, leb, Option, none, some, take, drop, length, if◌then◌else◌,
}
use stratodb.Error.{SPath, SdbResult, ok, err, panic, corrupt}
use stratodb.Error
use stratodb.Crates.{Crates}
use stratodb.Key.{Skey, into_bytes}
use stratodb.Key
use stratodb.Scalar.{Scalar}
use stratodb.Scalar.Codec.{encode}
use stratodb.Node.{Node}
use stratodb.Engine.Backend.{WriteNodes}
use stratodb.Engine.Mem.{mem_nodes}
use stratodb.Engine.Archived.{
  Rkyv, ArchNode, ArchTree, node_at, archived_nodes, from_blob, into_packed,
}
use stratodb.Index.Maintenance.{IndexEntry}
use stratodb.Tree.{packed, read_node, locate, resolve_from}
use stratodb.Tree.Edit.{put_scalar, put_scalar_rel}
use stratodb.Tree.Pack.{write_packed}
use stratodb.Tree.Write.Monad.{World, Write, ◌>>=◌, fail, crash, reading}
use stratodb.Txn.Write.{reindex_around, World_of, mem_of}

-- `new_unchecked`.
unfoldable pub new_unchecked : ⦃rkyv : Rkyv⦄ → List ℕ → SdbResult ArchTree
new_unchecked ⦃rkyv⦄ blob = elim (rkyv.access blob) [ none ↦ panic | some t ↦ ok t ]

-- The bytes from `offset` on are those of the second list, which has `len`.
unfoldable pub copy_from_slice : List ℕ → ℕ → ℕ → List ℕ → SdbResult (List ℕ)
copy_from_slice blob offset len encoded =
    if leb (offset + len) (length blob)
    then ok (take offset blob ++ encoded ++ drop (offset + len) blob)
    else panic

-- The addresses that `as_ptr` gives: that of the aligned copy of a blob, and that of the bytes of the
-- leaf of a key in it, which is not in front of it.
module _ ⦃crates : Crates⦄ ⦃rkyv : Rkyv⦄ (blob_ptr : List ℕ → ℕ)
    (leaf_ptr : List ℕ → List ℕ → ℕ) where
  unfoldable pub leaf_byte_span : List ℕ → ArchTree → Skey → Option (ℕ × ℕ)
  unfolding node_at into_bytes
  leaf_byte_span blob t k = elim (node_at t k) [
    | some (ArchNode.leaf bytes) ↦ some (leaf_ptr blob (into_bytes k) - blob_ptr blob, length bytes)
    | _ ↦ none
  ]

  -- `filter`.
  unfoldable pub same_length : ℕ → Option (ℕ × ℕ) → Option (ℕ × ℕ)
  same_length n none = none
  same_length n (some (offset, len)) = if len == n then some (offset, len) else none

  unfoldable pub span : List ℕ → SPath → List ℕ → SdbResult (Option (ℕ × ℕ))
  unfolding new_unchecked resolve_from archived_nodes leaf_byte_span same_length
  span blob rel encoded = Error.◌>>=◌ (new_unchecked blob) (λ t.
      Error.◌>>=◌ (resolve_from archived_nodes t Key.root rel) (λ found. elim found [
        | some k ↦ ok (same_length (length encoded) (leaf_byte_span blob t k))
        | none ↦ ok none
      ]))

  module _ (W : WriteNodes) (fuel : ℕ) where
    -- What is left of an edit of the nodes of a blob, which uses the same key generator.
    unfoldable pub store_edited : Skey → SdbResult (Unit {0}) × World mem_nodes → Write W (Unit {0})
    unfolding reading into_packed write_packed fail crash ◌>>=◌ mem_nodes
    store_edited entity (ok done, inner) w =
        (reading W (λ _. into_packed (mem_of W fuel inner)) >>= write_packed W fuel entity)
          (record w { seed = inner.seed })
    store_edited entity (err e, inner) w = fail W e (record w { seed = inner.seed })
    store_edited entity (panic, inner) w = crash W (record w { seed = inner.seed })

    unfoldable pub put_inside : Skey → List ℕ → SPath → Scalar → Write W (Unit {0})
    unfolding reading from_blob put_scalar_rel store_edited ◌>>=◌ mem_nodes
    put_inside entity blob rel scalar = reading W (λ _. from_blob blob) >>= λ mem. λ w.
        store_edited entity
          (put_scalar_rel mem_nodes fuel Key.root rel scalar (World_of W fuel mem w.seed)) w

    unfoldable pub put_scalar_into_packed : Skey → SPath → Scalar → Write W (Unit {0})
    unfolding reading read_node encode span copy_from_slice write_packed put_inside fail ◌>>=◌
    put_scalar_into_packed entity rel scalar =
        reading W (λ s. read_node W.reads s entity) >>= λ found. elim found [
          | some (Node.packed root blob) ↦
              reading W (λ _. span blob rel (encode [] scalar)) >>= λ spot. elim spot [
                | some (offset, len) ↦
                    reading W (λ _. copy_from_slice blob offset len (encode [] scalar))
                    >>= λ patched. write_packed W fuel entity (Node.packed root patched)
                | none ↦ put_inside entity blob rel scalar
              ]
          | _ ↦ fail W corrupt
        ]

    unfoldable pub put_scalar_path : List IndexEntry → SPath → Scalar → Write W (Unit {0})
    unfolding reindex_around reading locate put_scalar_into_packed put_scalar ◌>>=◌
    put_scalar_path indexes path scalar = reindex_around W fuel indexes path (
        reading W (λ s. locate W.reads s path) >>= λ found. elim found [
          | packed entity rel ↦ put_scalar_into_packed entity rel scalar
          | _ ↦ put_scalar W fuel path scalar
        ])
