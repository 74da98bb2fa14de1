-- ===== src/Tree/Refines/Entity.antt =====
-- `entity_leaf` of crates/stratodb/src/tree.rs: the leaves of an entity, plain or packed.
use stratodb.Base.{ℕ, ◌≡◌, refl, ◌⊎◌, inl, inr, List, Option, none, some}
use stratodb.Error.{SPath, SdbResult, ok, err, panic, corrupt, ◌>>=◌}
use stratodb.Crates.{Crates}
use stratodb.Key.{Skey}
use stratodb.Key
use stratodb.Scalar.{Scalar}
use stratodb.Node.{Node, NodeKind}
use stratodb.Engine.Backend.{ReadNodes}
use stratodb.Engine.Mem.{MemNodes, mem_reads}
use stratodb.Engine.Archived.{Rkyv, from_blob}
use stratodb.Value.{Value, subtree}
use stratodb.Tree.{read_node, resolve_from, leaf_scalar_opt}
use stratodb.Tree.Packed.{decode_packed, inside, entity_leaf}
use stratodb.Tree.Holds.{Shape}
use stratodb.Tree.Refines.Walk.{NonePacked, Walked, walk-subtree}
use stratodb.Tree.Refines.Read.{PackedAs, HoldsIn, in_blob}

module _ ⦃crates : Crates⦄ where
  -- The leaf at a place of a document.
  abbrev pub leaf_of : Option Value → Option Scalar
  leaf_of (some (Value.leaf x)) = some x
  leaf_of _ = none

  Shape-leaf_scalar_opt :
      (R : ReadNodes) (s : R.Store) (k : Skey) (v : Value)
      → Shape R s NonePacked k v
      → leaf_scalar_opt R s k ≡ ok (leaf_of (some v))
  unfolding leaf_scalar_opt read_node
  Shape-leaf_scalar_opt R s k (Value.leaf x) (h, _) = rw h refl
  Shape-leaf_scalar_opt R s k (Value.list vs) (items, h, _, _) = rw h refl
  Shape-leaf_scalar_opt R s k (Value.node m) (h, _, _) = rw h refl

  module _ (R : ReadNodes) (s : R.Store) where
    Walked-leaf_of :
        (found : Option Skey) (below : Option Value)
        → Walked R s found below
        → elim found [ some k ↦ leaf_scalar_opt R s k | none ↦ ok none ] ≡ ok (leaf_of below)
    Walked-leaf_of none none h = refl
    Walked-leaf_of (some k) (some w) h = Shape-leaf_scalar_opt R s k w h
    Walked-leaf_of none (some w) h = absurd h
    Walked-leaf_of (some k) none h = absurd h

    -- A leaf below a node that is not packed.
    plain_leaf :
        (k : Skey) (v : Value) (rel : SPath)
        → Shape R s NonePacked k v
        → (resolve_from R s k rel >>= λ found. elim found [
          | some k ↦ leaf_scalar_opt R s k
          | none ↦ ok none
        ])
          ≡ ok (leaf_of (subtree v rel.segments))
    unfolding resolve_from
    plain_leaf k v rel h =
        let (found, e, at) = walk-subtree R s rel.segments k v h in
        rw e (Walked-leaf_of found (subtree v rel.segments) at)

  module _ ⦃rkyv : Rkyv⦄ (R : ReadNodes) (s : R.Store) where
    -- An entity of the document `v`: one packed node, or plain nodes.
    abbrev pub IsEntity : Skey → Value → Type 0
    IsEntity k v = PackedAs R s k v ⊎ Shape R s NonePacked k v

    packed_leaf :
        (mem : MemNodes) (v : Value) (rel : SPath)
        → HoldsIn mem Key.root v
        → inside R mem rel (in_blob leaf_scalar_opt mem) ≡ ok (leaf_of (subtree v rel.segments))
    unfolding inside mem_reads
    packed_leaf mem v rel h = plain_leaf mem_reads mem Key.root v rel h

    -- A node that decodes is packed.
    decoded :
        (found : SdbResult (Option Node)) (mem : MemNodes)
        → (found >>= λ n. elim n [
          | some (Node.packed root blob) ↦ from_blob blob
          | _ ↦ err corrupt
        ])
          ≡ ok mem
        → (root : NodeKind) × (blob : List ℕ) × (found ≡ ok (some (Node.packed root blob)))
    decoded (ok (some (Node.packed root blob))) mem e = (root, blob, refl)
    decoded (ok (some Node.object)) mem e = cc
    decoded (ok (some (Node.list _))) mem e = cc
    decoded (ok (some (Node.leaf _))) mem e = cc
    decoded (ok none) mem e = cc
    decoded (err x) mem e = cc
    decoded panic mem e = cc

    is_packed :
        (k : Skey) (v : Value)
        → PackedAs R s k v
        → (root : NodeKind) × (blob : List ℕ) × (read_node R s k
            ≡ ok (some (Node.packed root blob)))
    unfolding decode_packed
    is_packed k v p = decoded (read_node R s k) p.mem p.decodes

    packed_entity :
        (k : Skey) (v : Value) (rel : SPath)
        → PackedAs R s k v
        → entity_leaf R s k rel ≡ ok (leaf_of (subtree v rel.segments))
    unfolding entity_leaf mem_reads
    packed_entity k v rel p =
        let (root, blob, e) = is_packed k v p in rw (e, p.decodes) (packed_leaf p.mem v rel p.holds)

    -- For an entity of a document, plain or packed, `entity_leaf` returns the leaf that the document
    -- has at the path, and `none` where it has nothing or a container; it fails nowhere.
    pub entity_leaf-subtree :
        (k : Skey) (v : Value) (rel : SPath)
        → IsEntity k v
        → entity_leaf R s k rel ≡ ok (leaf_of (subtree v rel.segments))
    unfolding entity_leaf read_node
    entity_leaf-subtree k (Value.leaf x) rel (inr (h, alone)) =
        rw h (plain_leaf R s k (Value.leaf x) rel (h, alone))
    entity_leaf-subtree k (Value.list vs) rel (inr (items, h, alone, hs)) =
        rw h (plain_leaf R s k (Value.list vs) rel (items, h, alone, hs))
    entity_leaf-subtree k (Value.node m) rel (inr (h, hs, absent)) =
        rw h (plain_leaf R s k (Value.node m) rel (h, hs, absent))
    entity_leaf-subtree k v rel (inl p) = packed_entity k v rel p
