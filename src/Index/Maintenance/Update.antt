-- ===== src/Index/Maintenance/Update.antt =====
-- The calls of crates/stratodb/src/index/maintenance.rs that bracket a mutation, and the one that
-- drops an index.
use stratodb.Base.{List, [], ◌∷◌, map, Bool, none, some, Text, be_bytes, if◌then◌else◌}
use stratodb.Error.{SPath}
use stratodb.Crates.{Crates}
use stratodb.Key.{Skey}
use stratodb.Key
use stratodb.Engine.TableKey.{TableKey, index}
use stratodb.Engine.TableValue.{TableValue}
use stratodb.Engine.Backend.{WriteNodes}
use stratodb.Engine.Archived.{Rkyv}
use stratodb.Index.Maintenance.{IndexEntry, entries_for, block_from, guard_unique}
use stratodb.Tree.Write.Monad.{Write, ◌>>=◌, ◌>>◌, pure, reading, writing}

module _ ⦃crates : Crates⦄ ⦃rkyv : Rkyv⦄ where
  module _ (W : WriteNodes) where
    unfoldable pub remove_keys : List TableKey → Write W (Unit {0})
    unfolding pure writing ◌>>◌
    remove_keys [] = pure W tt
    remove_keys (k ∷ keys) = writing W (λ s. W.delete s k) >> remove_keys keys

    -- The entries that a mutation at `scope` could change go before it.
    unfoldable pub delete : List IndexEntry → SPath → Write W (Unit {0})
    unfolding remove_keys reading entries_for pure ◌>>=◌ ◌>>◌
    delete [] scope = pure W tt
    delete (entry ∷ indexes) scope =
        (reading W (λ s. entries_for W.reads s entry scope) >>= λ entries.
        remove_keys (map (λ e. e.0) entries))
        >> delete indexes scope

    -- All entries of an index that is dropped.
    unfoldable pub delete_all : IndexEntry → Write W (Unit {0})
    unfolding remove_keys reading block_from Key.from_bytes ◌>>=◌
    delete_all entry =
        let lower : TableKey =
          index entry.id []
            (if entry.def.unique then none else some (Key.from_bytes (be_bytes 16 0))) in
        reading W (λ s. block_from W.reads s entry.id lower) >>= remove_keys

    unfoldable pub insert_entry : Bool → Text → TableKey × TableValue → Write W (Unit {0})
    unfolding reading writing guard_unique pure ◌>>◌
    insert_entry unique name (k, v) =
        (if unique then reading W (λ s. guard_unique W.reads s k v name) else pure W tt)
        >> writing W (λ s. W.put s k v)

    unfoldable pub insert_entries : Bool → Text → List (TableKey × TableValue) → Write W (Unit {0})
    unfolding insert_entry pure ◌>>◌
    insert_entries unique name [] = pure W tt
    insert_entries unique name (e ∷ entries) =
        insert_entry unique name e >> insert_entries unique name entries

    -- The entries that the state after a mutation at `scope` implies.
    unfoldable pub insert : List IndexEntry → SPath → Write W (Unit {0})
    unfolding insert_entries reading entries_for pure ◌>>=◌ ◌>>◌
    insert [] scope = pure W tt
    insert (entry ∷ indexes) scope =
        (reading W (λ s. entries_for W.reads s entry scope)
          >>= insert_entries entry.def.unique entry.def.name)
        >> insert indexes scope
