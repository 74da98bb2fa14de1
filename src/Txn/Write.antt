-- ===== src/Txn/Write.antt =====
-- The path-addressed writes of crates/stratodb/src/txn/write.rs on a table that is open: a write is
-- bracketed by the maintenance of the indexes. The indexes of the table are an argument.
pub mod Packs
pub mod Batch
pub mod Lookups
pub mod Splice
pub mod Patched
use stratodb.Base.{
  ℕ, List, [], ◌∷◌, Bool, true, false, not, ◌||◌, Option, none, some, if◌then◌else◌,
}
use stratodb.Error.{Segment, SPath, name, index, SdbResult, ok, err, panic}
use stratodb.Error
use stratodb.Crates.{Crates}
use stratodb.Key.{Skey}
use stratodb.Key
use stratodb.Spath.{child_name, child_index, is_root}
use stratodb.Spath
use stratodb.Engine.Backend.{ReadNodes, WriteNodes}
use stratodb.Engine.Mem.{MemNodes, mem_nodes}
use stratodb.Engine.Archived.{Rkyv, into_packed}
use stratodb.Index.Pattern.{Pattern, covers_strictly_below}
use stratodb.Index.Pattern
use stratodb.Index.Maintenance.{IndexEntry}
use stratodb.Index.Maintenance.Update.{delete, insert}
use stratodb.Tree.{Located, missing, plain, packed, locate}
use stratodb.Tree.Packed.{decode_packed}
use stratodb.Tree.Edit.{
  ensure_container, remove_path, remove_rel, clear_children, list_move, list_swap,
}
use stratodb.Tree.Pack.{write_packed, unpack_entity}
use stratodb.Tree.Write.Monad.{World, Write, ◌>>=◌, ◌>>◌, pure, fail, crash, reading}

unfoldable pub segment_path : Segment → SPath
unfolding child_name child_index
segment_path (name n) = child_name Spath.root n
segment_path (index i) = child_index Spath.root i

unfoldable pub index_patterns : List IndexEntry → SdbResult (List Pattern)
unfolding Pattern.parse
index_patterns [] = ok []
index_patterns (entry ∷ indexes) =
    Error.◌>>=◌ (Pattern.parse entry.def.pattern)
      (λ p. Error.◌>>=◌ (index_patterns indexes) (λ ps. ok (p ∷ ps)))

unfoldable pub any_covers : SPath → List Pattern → Bool
unfolding covers_strictly_below
any_covers base [] = false
any_covers base (p ∷ patterns) = covers_strictly_below p base || any_covers base patterns

unfoldable pub should_pack : List IndexEntry → SPath → SdbResult Bool
unfolding index_patterns any_covers
should_pack indexes base =
    Error.◌>>=◌ (index_patterns indexes) (λ patterns. ok (not (any_covers base patterns)))

module _ ⦃crates : Crates⦄ ⦃rkyv : Rkyv⦄ (W : WriteNodes) (fuel : ℕ) where
  unfoldable pub reindex_around : {A : Type 0} → List IndexEntry → SPath → Write W A → Write W A
  unfolding delete insert pure ◌>>=◌ ◌>>◌
  reindex_around [] scope apply = apply
  reindex_around (entry ∷ indexes) scope apply =
      delete W (entry ∷ indexes) scope >> apply >>= λ result.
      insert W (entry ∷ indexes) scope >> pure W result

  unfoldable pub ensure_container_at : List IndexEntry → SPath → Bool → Write W Skey
  unfolding reindex_around ensure_container
  ensure_container_at indexes path list =
      reindex_around indexes path (ensure_container W fuel path list)

  unfoldable pub clear_children_at : List IndexEntry → SPath → Skey → Write W (Unit {0})
  unfolding reindex_around clear_children
  clear_children_at indexes path k = reindex_around indexes path (clear_children W fuel k)

  unfoldable pub list_move_at : Skey → ℕ → ℕ → Write W (Unit {0})
  unfolding list_move
  list_move_at k from to = list_move W fuel k from to

  unfoldable pub list_swap_at : Skey → ℕ → ℕ → Write W (Unit {0})
  unfolding list_swap
  list_swap_at k i j = list_swap W fuel k i j

  unfoldable pub unpack_if_packed : SPath → Write W (Unit {0})
  unfolding reading locate unpack_entity pure ◌>>=◌
  unpack_if_packed base = reading W (λ s. locate W.reads s base) >>= λ found. elim found [
    | packed entity rel ↦ unpack_entity W fuel entity
    | _ ↦ pure W tt
  ]

  -- What is left of a removal in the nodes of a blob, which uses the same key generator.
  abbrev pub World_of : MemNodes → ℕ → World mem_nodes
  unfolding mem_nodes
  World_of mem seed = record { store = mem; seed = seed }

  abbrev pub mem_of : World mem_nodes → MemNodes
  unfolding mem_nodes
  mem_of w = w.store

  unfoldable pub store_removed : Skey → SdbResult Bool × World mem_nodes → Write W Bool
  unfolding reading into_packed write_packed pure fail crash ◌>>=◌ ◌>>◌ mem_nodes
  store_removed entity (ok true, inner) w =
      (reading W (λ _. into_packed (mem_of inner)) >>= λ n.
      write_packed W fuel entity n >> pure W true)
        (record w { seed = inner.seed })
  store_removed entity (ok false, inner) w = pure W false (record w { seed = inner.seed })
  store_removed entity (err e, inner) w = fail W e (record w { seed = inner.seed })
  store_removed entity (panic, inner) w = crash W (record w { seed = inner.seed })

  unfoldable pub remove_inside : Skey → SPath → Write W Bool
  unfolding reading decode_packed remove_rel store_removed ◌>>=◌ mem_nodes
  remove_inside entity rel = reading W (λ s. decode_packed W.reads s entity) >>= λ mem.
      λ w. store_removed entity (remove_rel mem_nodes fuel Key.root rel (World_of mem w.seed)) w

  unfoldable pub remove_path_at : List IndexEntry → SPath → Write W Bool
  unfolding reindex_around reading locate is_root remove_inside remove_path ◌>>=◌
  remove_path_at indexes path = reindex_around indexes path (
      reading W (λ s. locate W.reads s path) >>= λ found. elim found [
        | packed entity rel ↦
            if is_root rel then remove_path W fuel path else remove_inside entity rel
        | _ ↦ remove_path W fuel path
      ])
