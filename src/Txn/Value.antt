-- ===== src/Txn/Value.antt =====
-- The loads of crates/stratodb/src/txn/value.rs. `value_at` runs on rounds, one for each level, since in
-- a store whose links run in a circle it does not end.
pub mod Loads
use stratodb.Base.{ℕ, zero, suc, List, [], ◌∷◌, Option, none, some, Text}
use stratodb.Error.{SPath, SdbResult, ok, err, panic, corrupt, ◌>>=◌}
use stratodb.Crates.{Crates}
use stratodb.Key.{Skey}
use stratodb.Key
use stratodb.Node.{Node}
use stratodb.Engine.Backend.{ReadNodes}
use stratodb.Engine.Mem.{MemNodes, mem_reads}
use stratodb.Engine.Archived.{Rkyv, from_blob}
use stratodb.Value.{Value, Values, nil, cons, Entries, empty, map_insert}
use stratodb.Tree.{
  Located, missing, plain, packed, read_node, object_children, locate, resolve_from,
}
use stratodb.Tree.Packed.{decode_packed}
use stratodb.Cache.{Caches}
use stratodb.Txn.Read.Monad.{Action, lift}
use stratodb.Txn.Read.{ReadTxn, on_table}

module _ ⦃crates : Crates⦄ where
  -- The loops over the items of a list and the links of an object.
  unfoldable pub value_items : (Skey → SdbResult Value) → List Skey → SdbResult Values
  value_items read [] = ok nil
  value_items read (k ∷ items) = read k >>= λ v. value_items read items >>= λ vs. ok (cons v vs)

  unfoldable pub value_links :
      (Skey → SdbResult Value) → Entries → List (Text × Skey) → SdbResult Entries
  unfolding map_insert
  value_links read out [] = ok out
  value_links read out ((name, k) ∷ links) =
      read k >>= λ v. value_links read (map_insert out name v) links

  module _ ⦃rkyv : Rkyv⦄ where
    -- The match on the node, where `read` goes on in the store and `read_blob` in a blob.
    unfoldable pub value_of :
        (R : ReadNodes)
        → R.Store
        → (Skey → SdbResult Value)
        → (MemNodes → SdbResult Value)
        → Skey
        → Option Node
        → SdbResult Value
    unfolding value_items value_links object_children from_blob
    value_of R s read read_blob key (some (Node.leaf scalar)) = ok (Value.leaf scalar)
    value_of R s read read_blob key (some (Node.list items)) =
        value_items read items >>= λ out. ok (Value.list out)
    value_of R s read read_blob key (some Node.object) = object_children R s key >>= λ links.
        value_links read empty links >>= λ out. ok (Value.node out)
    value_of R s read read_blob key (some (Node.packed root blob)) = from_blob blob >>= read_blob
    value_of R s read read_blob key none = err corrupt

    unfoldable pub value_at : ℕ → (R : ReadNodes) → R.Store → Skey → SdbResult Value
    unfolding read_node value_of mem_reads
    value_at zero R s key = panic
    value_at (suc rounds) R s key =
        read_node R s key
        >>= value_of R s (λ k. value_at rounds R s k)
            (λ mem. value_at rounds mem_reads mem Key.root) key

    unfoldable pub value_located :
        ℕ → (R : ReadNodes) → R.Store → Located → SdbResult (Option Value)
    unfolding value_at decode_packed resolve_from mem_reads
    value_located rounds R s missing = ok none
    value_located rounds R s (plain key) = value_at rounds R s key >>= λ v. ok (some v)
    value_located rounds R s (packed entity rel) = decode_packed R s entity >>= λ mem.
        resolve_from mem_reads mem Key.root rel >>= λ found. elim found [
          | some key ↦ value_at rounds mem_reads mem key >>= λ v. ok (some v)
          | none ↦ ok none
        ]

    unfoldable pub read_value :
        ℕ → (R : ReadNodes) (C : Caches) → ReadTxn R C → SPath → Action R C (Option Value)
    unfolding on_table lift locate value_located
    read_value rounds R C txn base =
        on_table R C txn (ok none) (λ s. lift (locate R s base >>= value_located rounds R s))
