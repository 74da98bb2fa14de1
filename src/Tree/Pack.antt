-- ===== src/Tree/Pack.antt =====
-- The writes of crates/stratodb/src/tree.rs that store and unpack a packed entity.

use stratodb.Base.{ℕ, List, [], ◌∷◌, Option, none, some, if◌then◌else◌}
use stratodb.Error.{Segment, SPath}
use stratodb.Crates.{Crates}
use stratodb.Key.{Skey, skey_eq}
use stratodb.Key
use stratodb.Node.{Node}
use stratodb.Engine.TableKey.{TableKey, data_key, child}
use stratodb.Engine.TableValue.{TableValue}
use stratodb.Engine.Backend.{ReadNodes, WriteNodes}
use stratodb.Engine.Mem.{into_entries}
use stratodb.Engine.Archived.{Rkyv}
use stratodb.Tree.{read_node, child_key}
use stratodb.Tree.Packed.{decode_packed}
use stratodb.Tree.Write.Monad.{Write, ◌>>=◌, ◌>>◌, pure, reading, writing, generate}
use stratodb.Tree.Write.{is_index, write_node, cascade_delete, attach_child}
use stratodb.Tree.Edit.{ensure_container}

module _ ⦃crates : Crates⦄ where
  -- The keys of a blob, where its root is the entity.
  unfoldable pub remap : Skey → TableKey → TableKey
  unfolding skey_eq
  remap entity (data_key k) = data_key (if skey_eq k Key.root then entity else k)
  remap entity (child parent n) = child (if skey_eq parent Key.root then entity else parent) n
  remap entity other = other

  -- `fuel` bounds the rounds of `cascade_delete`.
  module _ (W : WriteNodes) (fuel : ℕ) where
    abbrev R : ReadNodes
    R = W.reads

    -- The old child at `last`: a packed entity keeps its key.
    unfoldable pub replace_packed : Skey → SPath → Segment → Node → Option Skey → Write W (Unit {0})
    unfolding reading read_node write_node cascade_delete generate attach_child ◌>>=◌ ◌>>◌
    replace_packed parent parent_path last n none = generate W >>= λ entity.
        write_node W fuel entity n >> attach_child W fuel parent parent_path last entity
    replace_packed parent parent_path last n (some old) =
        reading W (λ s. read_node R s old) >>= λ found. elim found [
          | some (Node.packed _ _) ↦ write_node W fuel old n
          | _ ↦ cascade_delete W fuel old >> generate W >>= λ entity.
              write_node W fuel entity n >> attach_child W fuel parent parent_path last entity
        ]

    unfoldable pub store_packed_under : Skey → SPath → Segment → Node → Write W (Unit {0})
    unfolding reading child_key replace_packed ◌>>=◌
    store_packed_under parent parent_path last n =
        reading W (λ s. child_key R s parent last) >>= replace_packed parent parent_path last n

    unfoldable pub store_packed : SPath → Segment → Node → Write W (Unit {0})
    unfolding ensure_container is_index store_packed_under ◌>>=◌
    store_packed parent_path last n =
        ensure_container W fuel parent_path (is_index last) >>= λ parent.
        store_packed_under parent parent_path last n

    unfoldable pub write_packed : Skey → Node → Write W (Unit {0})
    unfolding write_node
    write_packed k n = write_node W fuel k n

    unfoldable pub put_entries : Skey → List (TableKey × TableValue) → Write W (Unit {0})
    unfolding writing remap pure ◌>>◌
    put_entries entity [] = pure W tt
    put_entries entity ((k, v) ∷ entries) =
        writing W (λ s. W.put s (remap entity k) v) >> put_entries entity entries

    module _ ⦃rkyv : Rkyv⦄ where
      unfoldable pub unpack_entity : Skey → Write W (Unit {0})
      unfolding reading decode_packed into_entries put_entries ◌>>=◌
      unpack_entity entity =
          reading W (λ s. decode_packed R s entity) >>= λ mem. put_entries entity (into_entries mem)
