-- ===== src/Tree/Write.antt =====
-- The writes of crates/stratodb/src/tree.rs. A write takes the store and the state of the key
-- generator, and returns them beside its result, also beside an error: what was written before the
-- error stays written.
pub mod Monad
use Prim.Native.String.{String}
use stratodb.Base.{
  ℕ, zero, suc, ◌-◌, List, [], ◌∷◌, ◌++◌, map, Bool, true, false, not, ◌||◌, Option, none, some,
  Text, length, get_elem?, set, take, drop, ltb, ◌==◌, min, max, if◌then◌else◌,
}
use stratodb.Error.{
  Segment, SPath, name, index, SdbError, SdbResult, ok, err, panic, corrupt, unexpected_node,
  index_out_of_range,
}
use stratodb.Crates.{Crates}
use stratodb.Key.{Skey, skey_eq}
use stratodb.Key
use stratodb.Scalar.{Scalar}
use stratodb.Node.{Node, NodeKind, as_str, kind}
use stratodb.Spath.{split_last, child_index, len}
use stratodb.Spath
use stratodb.Engine.TableKey.{TableKey, data_key, child}
use stratodb.Engine.TableValue.{TableValue, node, skey}
use stratodb.Engine.Backend.{ReadNodes, WriteNodes}
use stratodb.Engine.Mem.{into_entries}
use stratodb.Engine.Archived.{Rkyv}
use stratodb.Tree.{read_node, object_children, child_key, resolve_from}
use stratodb.Tree.Packed.{decode_packed}
use stratodb.Tree.Write.Monad.{Write, ◌>>=◌, ◌>>◌, pure, fail, crash, reading, writing, generate}

-- Operations of a vector.
unfoldable pub remove_at {ℓ} : {A : Type ℓ} → List A → ℕ → List A
remove_at [] i = []
remove_at (x ∷ xs) zero = xs
remove_at (x ∷ xs) (suc i) = x ∷ remove_at xs i

unfoldable pub insert_at {ℓ} : {A : Type ℓ} → List A → ℕ → A → List A
insert_at xs zero v = v ∷ xs
insert_at [] (suc i) v = v ∷ []
insert_at (x ∷ xs) (suc i) v = x ∷ insert_at xs i v

-- The elements of a list on top of a stack, the last one uppermost.
unfoldable pub push_all {ℓ} : {A : Type ℓ} → List A → List A → List A
push_all [] stack = stack
push_all (x ∷ xs) stack = push_all xs (x ∷ stack)

unfoldable pub is_index : Segment → Bool
is_index (name _) = false
is_index (index _) = true

module _ ⦃crates : Crates⦄ where
  unfoldable pub empty_container : Bool → Node
  empty_container is_list = if is_list then Node.list [] else Node.object

  -- `unexpected`.
  unfoldable pub unexpected : SPath → String → String → SdbError
  unexpected path expected found = unexpected_node path expected found

  unfoldable pub kind_eq : NodeKind → NodeKind → Bool
  kind_eq NodeKind.object NodeKind.object = true
  kind_eq NodeKind.list NodeKind.list = true
  kind_eq NodeKind.leaf NodeKind.leaf = true
  kind_eq _ _ = false

  unfoldable pub verify_container : NodeKind → SPath → Bool → SdbResult (Unit {0})
  unfolding kind_eq as_str
  verify_container found path child_is_index =
      let expected = if child_is_index then NodeKind.list else NodeKind.object in
      if kind_eq found expected
      then ok tt
      else err (unexpected_node path (as_str expected) (as_str found))

  -- The vector of a list where an element is attached.
  unfoldable pub attach_item : List Skey → SPath → ℕ → Skey → SdbResult (List Skey)
  unfolding child_index
  attach_item items parent_path i c =
      if ltb i (length items)
      then ok (set items i c)
      else if i == length items
      then ok (items ++ c ∷ [])
      else err (index_out_of_range (child_index parent_path i) i (length items))

  -- `attach_child` and `detach_child` on the parent's node: all but a list is an error.
  unfoldable pub on_list :
      Option Node → SPath → (List Skey → SdbResult (List Skey)) → SdbResult Node
  unfolding unexpected
  on_list none parent_path f = err corrupt
  on_list (some (Node.list items)) parent_path f = elim (f items) [
    | ok items' ↦ ok (Node.list items')
    | err e ↦ err e
    | panic ↦ panic
  ]
  on_list (some Node.object) parent_path f = err (unexpected parent_path "list" "object")
  on_list (some (Node.leaf _)) parent_path f = err (unexpected parent_path "container" "leaf")
  on_list (some (Node.packed _ _)) parent_path f =
      err (unexpected parent_path "list" "packed entity")

  unfoldable pub detach_item : List Skey → ℕ → SdbResult (List Skey)
  unfolding remove_at
  detach_item items i = if ltb i (length items) then ok (remove_at items i) else ok items

  -- `fuel` bounds the rounds of `cascade_delete`.
  module _ (W : WriteNodes) (fuel : ℕ) where
    abbrev R : ReadNodes
    R = W.reads

    unfoldable pub write_node : Skey → Node → Write W (Unit {0})
    unfolding writing
    write_node k n = writing W (λ s. W.put s (data_key k) (node n))

    unfoldable pub delete_node : Skey → Write W (Unit {0})
    unfolding writing
    delete_node k = writing W (λ s. W.delete s (data_key k))

    unfoldable pub put_object_child : Skey → Text → Skey → Write W (Unit {0})
    unfolding writing
    put_object_child parent n c = writing W (λ s. W.put s (child parent n) (skey c))

    unfoldable pub remove_object_child : Skey → Text → Write W (Unit {0})
    unfolding writing
    remove_object_child parent n = writing W (λ s. W.delete s (child parent n))

    unfoldable pub remove_links : Skey → List (Text × Skey) → Write W (List Skey)
    unfolding remove_object_child ◌>>=◌ ◌>>◌ pure
    remove_links parent [] = pure W []
    remove_links parent ((n, c) ∷ links) =
        remove_object_child parent n >> remove_links parent links >>= λ rest. pure W (c ∷ rest)

    unfoldable pub take_object_children : Skey → Write W (List Skey)
    unfolding reading object_children ◌>>=◌ remove_links
    take_object_children parent =
        reading W (λ s. object_children R s parent) >>= remove_links parent

    -- What a node on the stack holds below it.
    unfoldable pub expand : Skey → Option Node → List Skey → Write W (List Skey)
    unfolding take_object_children ◌>>=◌ pure push_all
    expand k (some Node.object) stack =
        take_object_children k >>= λ below. pure W (push_all below stack)
    expand k (some (Node.list items)) stack = pure W (push_all items stack)
    expand k _ stack = pure W stack

    -- The loop over the stack.
    unfoldable pub delete_all : ℕ → List Skey → Write W (Unit {0})
    unfolding reading read_node expand delete_node ◌>>=◌ ◌>>◌ pure crash
    delete_all rounds [] = pure W tt
    delete_all zero (k ∷ stack) = crash W
    delete_all (suc rounds) (k ∷ stack) = reading W (λ s. read_node R s k) >>= λ found.
        expand k found stack >>= λ stack'. delete_node k >> delete_all rounds stack'

    unfoldable pub cascade_delete : Skey → Write W (Unit {0})
    unfolding delete_all
    cascade_delete k = delete_all fuel (k ∷ [])

    unfoldable pub attach_child : Skey → SPath → Segment → Skey → Write W (Unit {0})
    unfolding put_object_child reading read_node on_list attach_item write_node ◌>>=◌
    attach_child parent parent_path (name n) c = put_object_child parent n c
    attach_child parent parent_path (index i) c = reading W (λ s. read_node R s parent) >>= λ found.
        reading W (λ _. on_list found parent_path (λ items. attach_item items parent_path i c))
        >>= write_node parent

    unfoldable pub detach_child : Skey → SPath → Segment → Write W (Unit {0})
    unfolding remove_object_child reading read_node on_list detach_item write_node ◌>>=◌
    detach_child parent parent_path (name n) = remove_object_child parent n
    detach_child parent parent_path (index i) = reading W (λ s. read_node R s parent) >>= λ found.
        reading W (λ _. on_list found parent_path (λ items. detach_item items i))
        >>= write_node parent
