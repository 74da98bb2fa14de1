-- ===== src/Tree/Edit.antt =====
-- The edits of crates/stratodb/src/tree.rs: what is missing on the way to a path is made, and what
-- goes is deleted with all below it.

pub mod Rounds
pub mod Order
use stratodb.Base.{
  ℕ, zero, suc, List, [], ◌∷◌, Bool, true, false, Option, none, some, length, get_elem?, set, min,
  max, if◌then◌else◌,
}
use stratodb.Error.{Segment, SPath, SdbResult, ok, err, corrupt, index_out_of_range}
use stratodb.Crates.{Crates}
use stratodb.Key.{Skey, skey_eq}
use stratodb.Key
use stratodb.Scalar.{Scalar}
use stratodb.Node.{Node, kind}
use stratodb.Spath.{split_last, child_index, len}
use stratodb.Spath
use stratodb.Engine.Backend.{ReadNodes, WriteNodes}
use stratodb.Tree.{read_node, child_key, resolve_from}
use stratodb.Tree.Write.Monad.{Write, ◌>>=◌, ◌>>◌, pure, fail, crash, reading, generate}
use stratodb.Tree.Write.{
  remove_at, insert_at, is_index, empty_container, verify_container, write_node,
  take_object_children, cascade_delete, attach_child, detach_child,
}

module _ ⦃crates : Crates⦄ where
  unfoldable pub move_item : List Skey → ℕ → ℕ → SdbResult (List Skey)
  unfolding remove_at insert_at
  move_item items from to = elim (get_elem? items from) [
    | none ↦ err (index_out_of_range Spath.root from (length items))
    | some moved ↦
        let rest = remove_at items from in ok (insert_at rest (min to (length rest)) moved)
  ]

  unfoldable pub swap_items : List Skey → ℕ → ℕ → SdbResult (List Skey)
  swap_items items i j = elim (get_elem? items i) [
    | none ↦ err (index_out_of_range Spath.root (max i j) (length items))
    | some a ↦ elim (get_elem? items j) [
      | none ↦ err (index_out_of_range Spath.root (max i j) (length items))
      | some b ↦ ok (set (set items i b) j a)
    ]
  ]

  -- `fuel` bounds the rounds of `cascade_delete`.
  module _ (W : WriteNodes) (fuel : ℕ) where
    abbrev R : ReadNodes
    R = W.reads

    unfoldable pub ensure_base : Skey → Bool → Option Node → Write W Skey
    unfolding reading verify_container write_node empty_container fail ◌>>=◌ ◌>>◌ pure skey_eq kind
    ensure_base root child_is_index (some n) =
        reading W (λ _. verify_container (kind n) Spath.root child_is_index) >> pure W root
    ensure_base root child_is_index none =
        if skey_eq root Key.root
        then (write_node W fuel Key.root (empty_container child_is_index) >> pure W Key.root)
        else fail W corrupt

    -- A container that is there.
    unfoldable pub ensure_found : SPath → Bool → Skey → Write W Skey
    unfolding reading read_node verify_container fail ◌>>=◌ ◌>>◌ pure kind
    ensure_found rel child_is_index k = reading W (λ s. read_node R s k) >>= λ found. elim found [
      | none ↦ fail W corrupt
      | some n ↦ reading W (λ _. verify_container (kind n) rel child_is_index) >> pure W k
    ]

    -- A container that is not there is made in its parent, which `ensure_parent` sees to.
    unfoldable pub ensure_under :
        Write W Skey → Skey → SPath → Bool → SPath → Segment → Write W Skey
    unfolding reading read_node resolve_from ensure_found generate write_node empty_container
        attach_child ◌>>=◌ ◌>>◌ pure
    ensure_under ensure_parent root rel child_is_index parent_rel last =
        reading W (λ s. resolve_from R s root rel) >>= λ found. elim found [
          | some k ↦ ensure_found rel child_is_index k
          | none ↦ ensure_parent >>= λ parent_key. generate W >>= λ k.
              write_node W fuel k (empty_container child_is_index)
              >> attach_child W fuel parent_key parent_rel last k
              >> pure W k
        ]

    unfoldable pub ensure_at : (SPath → Bool → Write W Skey) → Skey → SPath → Bool → Write W Skey
    unfolding reading read_node ensure_base is_index ◌>>=◌
    ensure_at ensure_parent root rel child_is_index = elim (split_last rel) [
      | none ↦ reading W (λ s. read_node R s root) >>= ensure_base root child_is_index
      | some (parent_rel, last) ↦
          ensure_under (ensure_parent parent_rel (is_index last)) root rel child_is_index parent_rel
            last
    ]

    -- The recursion takes a segment off the path, so as many rounds as segments are enough.
    unfoldable pub ensure_rounds : ℕ → Skey → SPath → Bool → Write W Skey
    unfolding ensure_at crash
    ensure_rounds zero root = ensure_at (λ _ _. crash W) root
    ensure_rounds (suc rounds) root = ensure_at (ensure_rounds rounds root) root

    unfoldable pub ensure_container_rel : Skey → SPath → Bool → Write W Skey
    unfolding ensure_rounds len
    ensure_container_rel root rel child_is_index = ensure_rounds (len rel) root rel child_is_index

    unfoldable pub ensure_container : SPath → Bool → Write W Skey
    unfolding ensure_container_rel
    ensure_container path child_is_index = ensure_container_rel Key.root path child_is_index

    -- The old subtree at a child, if there is one, goes.
    unfoldable pub drop_child : Skey → Segment → Write W (Unit {0})
    unfolding reading child_key cascade_delete pure ◌>>=◌
    drop_child parent last = reading W (λ s. child_key R s parent last) >>= λ found. elim found [
      | some old ↦ cascade_delete W fuel old
      | none ↦ pure W tt
    ]

    unfoldable pub put_node_scalar : Skey → Scalar → Write W (Unit {0})
    unfolding reading read_node cascade_delete write_node pure ◌>>=◌ ◌>>◌
    put_node_scalar k scalar =
        (reading W (λ s. read_node R s k) >>= λ found. elim found [
          | some _ ↦ cascade_delete W fuel k
          | none ↦ pure W tt
        ])
        >> write_node W fuel k (Node.leaf scalar)

    unfoldable pub put_scalar_rel : Skey → SPath → Scalar → Write W (Unit {0})
    unfolding split_last put_node_scalar ensure_container_rel is_index drop_child generate
        write_node attach_child ◌>>=◌ ◌>>◌
    put_scalar_rel root rel scalar = elim (split_last rel) [
      | none ↦ put_node_scalar root scalar
      | some (parent_rel, last) ↦
          ensure_container_rel root parent_rel (is_index last) >>= λ parent_key.
          drop_child parent_key last >> generate W >>= λ k.
          write_node W fuel k (Node.leaf scalar) >> attach_child W fuel parent_key parent_rel last k
    ]

    unfoldable pub put_scalar : SPath → Scalar → Write W (Unit {0})
    unfolding put_scalar_rel
    put_scalar path scalar = put_scalar_rel Key.root path scalar

    unfoldable pub detach_last : Skey → SPath → Write W (Unit {0})
    unfolding split_last reading resolve_from detach_child pure ◌>>=◌
    detach_last root rel = elim (split_last rel) [
      | none ↦ pure W tt
      | some (parent_rel, last) ↦ reading W (λ s. resolve_from R s root parent_rel) >>= λ found.
          elim found [
            | some parent_key ↦ detach_child W fuel parent_key parent_rel last
            | none ↦ pure W tt
          ]
    ]

    unfoldable pub remove_rel : Skey → SPath → Write W Bool
    unfolding reading resolve_from cascade_delete detach_last pure ◌>>=◌ ◌>>◌
    remove_rel root rel = reading W (λ s. resolve_from R s root rel) >>= λ found. elim found [
      | none ↦ pure W false
      | some k ↦ cascade_delete W fuel k >> detach_last root rel >> pure W true
    ]

    unfoldable pub remove_path : SPath → Write W Bool
    unfolding remove_rel
    remove_path path = remove_rel Key.root path

    -- `list_move` and `list_swap` rewrite the vector of a list node.
    unfoldable pub rewrite_list : Skey → (List Skey → SdbResult (List Skey)) → Write W (Unit {0})
    unfolding reading read_node write_node fail ◌>>=◌
    rewrite_list k f = reading W (λ s. read_node R s k) >>= λ found. elim found [
      | some (Node.list items) ↦
          reading W (λ _. f items) >>= λ items'. write_node W fuel k (Node.list items')
      | _ ↦ fail W corrupt
    ]

    unfoldable pub list_move : Skey → ℕ → ℕ → Write W (Unit {0})
    unfolding rewrite_list move_item
    list_move k from to = rewrite_list k (λ items. move_item items from to)

    unfoldable pub list_swap : Skey → ℕ → ℕ → Write W (Unit {0})
    unfolding rewrite_list swap_items
    list_swap k i j = rewrite_list k (λ items. swap_items items i j)

    -- The loop over the children.
    unfoldable pub cascade_each : List Skey → Write W (Unit {0})
    unfolding cascade_delete pure ◌>>◌
    cascade_each [] = pure W tt
    cascade_each (c ∷ cs) = cascade_delete W fuel c >> cascade_each cs

    unfoldable pub clear_children : Skey → Write W (Unit {0})
    unfolding reading read_node take_object_children cascade_each write_node fail ◌>>=◌ ◌>>◌
    clear_children k = reading W (λ s. read_node R s k) >>= λ found. elim found [
      | some Node.object ↦ take_object_children W fuel k >>= cascade_each
      | some (Node.list items) ↦ cascade_each items >> write_node W fuel k (Node.list [])
      | _ ↦ fail W corrupt
    ]
