-- ===== src/Tree.antt =====
-- crates/stratodb/src/tree.rs: the tree of nodes in a store, and its reads. A store is any that has
-- the methods of `ReadNodes`.
pub mod Write
pub mod Edit
pub mod Pack
pub mod Packed
pub mod Holds
pub mod Refines
use Prim.Native.String.{String}
use stratodb.Base.{
  ℕ, List, [], ◌∷◌, map, Bool, true, false, Option, none, some, Text, length, get_elem?,
  if◌then◌else◌,
}
use stratodb.Error.{
  Segment, SPath, name, index, SdbError, SdbResult, ok, err, panic, corrupt, unexpected_node, ◌>>=◌,
}
use stratodb.Crates.{Crates}
use stratodb.Key.{Skey, skey_eq}
use stratodb.Key
use stratodb.Scalar.{Scalar}
use stratodb.Node.{Node, NodeKind, as_str, kind}
use stratodb.Engine.TableKey.{TableKey, data_key, child}
use stratodb.Engine.TableValue.{TableValue, node, skey}
use stratodb.Engine.Backend.{ReadNodes, NodeStep}

abbrev pub from_segments : List Segment → SPath
from_segments segs = record { segments = segs }

module _ ⦃crates : Crates⦄ where
  pub data Located : Type 0 where
    missing : Located
    plain : Skey → Located
    packed : Skey → SPath → Located

  module _ (R : ReadNodes) where
    unfoldable pub read_node : R.Store → Skey → SdbResult (Option Node)
    read_node s k = R.fetch s (data_key k) >>= λ found. elim found [
      | some (node n) ↦ ok (some n)
      | some _ ↦ err corrupt
      | none ↦ ok none
    ]

    -- One item of the scan over the links of `parent`; the items behind it are not looked at where
    -- the loop breaks off.
    unfoldable pub link_item :
        Skey
        → TableKey × TableValue
        → SdbResult (List (Text × Skey))
        → SdbResult (List (Text × Skey))
    unfolding skey_eq
    link_item parent (child p n, skey c) rest =
        if skey_eq p parent then (rest >>= λ links. ok ((n, c) ∷ links)) else ok []
    link_item parent (child p n, _) rest = if skey_eq p parent then err corrupt else ok []
    link_item parent (_, value) rest = ok []

    unfoldable pub collect_links :
        Skey → List (SdbResult (TableKey × TableValue)) → SdbResult (List (Text × Skey))
    unfolding link_item
    collect_links parent [] = ok []
    collect_links parent (item ∷ items) =
        let rest = collect_links parent items in item >>= λ entry. link_item parent entry rest

    unfoldable pub object_children : R.Store → Skey → SdbResult (List (Text × Skey))
    unfolding collect_links
    object_children s parent = R.scan_from s (child parent []) >>= collect_links parent

    -- The next hop, by what `node_step` returned.
    unfoldable pub hop : R.Store → Skey → NodeStep → Segment → SdbResult (Option Skey)
    hop s k step (name n) = R.child_link s k n
    hop s k (NodeStep.list items) (index i) = ok (get_elem? items i)
    hop s k _ (index i) = ok none

    -- The loop over the segments that are left.
    unfoldable pub locate_from : R.Store → Skey → List Segment → SdbResult Located
    unfolding hop
    locate_from s k [] = R.node_step s k >>= λ step. elim step [
      | none ↦ ok missing
      | some NodeStep.packed ↦ ok (packed k (from_segments []))
      | some _ ↦ ok (plain k)
    ]
    locate_from s k (seg ∷ rest) = R.node_step s k >>= λ step. elim step [
      | none ↦ ok missing
      | some NodeStep.packed ↦ ok (packed k (from_segments (seg ∷ rest)))
      | some other ↦ hop s k other seg >>= λ next. elim next [
        | none ↦ ok missing
        | some c ↦ locate_from s c rest
      ]
    ]

    unfoldable pub locate : R.Store → SPath → SdbResult Located
    unfolding locate_from
    locate s path = locate_from s Key.root path.segments

    unfoldable pub child_key : R.Store → Skey → Segment → SdbResult (Option Skey)
    unfolding read_node
    child_key s parent (name n) = R.child_link s parent n
    child_key s parent (index i) = read_node s parent >>= λ found. elim found [
      | some (Node.list items) ↦ ok (get_elem? items i)
      | _ ↦ ok none
    ]

    unfoldable pub leaf_at : R.Store → Skey → SPath → SdbResult (Option Scalar)
    unfolding read_node as_str kind
    leaf_at s k path = read_node s k >>= λ found. elim found [
      | none ↦ err corrupt
      | some n ↦ elim n [
        | Node.leaf scalar ↦ ok (some scalar)
        | other ↦ err (unexpected_node path "leaf" (as_str (kind other)))
      ]
    ]

    unfoldable pub scalar_at : R.Store → Skey → SdbResult Scalar
    unfolding read_node
    scalar_at s k = read_node s k >>= λ found. elim found [
      | some (Node.leaf scalar) ↦ ok scalar
      | _ ↦ err corrupt
    ]

    unfoldable pub kind_of : R.Store → Skey → SdbResult (Option NodeKind)
    unfolding read_node kind
    kind_of s k =
        read_node s k >>= λ found. elim found [ none ↦ ok none | some n ↦ ok (some (kind n)) ]

    unfoldable pub list_len : R.Store → Skey → SdbResult ℕ
    unfolding read_node
    list_len s k = read_node s k >>= λ found. elim found [
      | some (Node.list items) ↦ ok (length items)
      | _ ↦ err corrupt
    ]

    unfoldable pub object_keys : R.Store → Skey → SdbResult (List Text)
    unfolding read_node object_children
    object_keys s k = read_node s k >>= λ found. elim found [
      | some Node.object ↦ object_children s k >>= λ links. ok (map (λ p. p.0) links)
      | _ ↦ err corrupt
    ]

    unfoldable pub children : R.Store → Skey → SdbResult (List Skey)
    unfolding read_node object_children
    children s k = read_node s k >>= λ found. elim found [
      | some Node.object ↦ object_children s k >>= λ links. ok (map (λ p. p.1) links)
      | some (Node.list items) ↦ ok items
      | _ ↦ ok []
    ]

    -- The loop over the segments.
    unfoldable pub walk : R.Store → Skey → List Segment → SdbResult (Option Skey)
    unfolding child_key
    walk s k [] = ok (some k)
    walk s k (seg ∷ rest) =
        child_key s k seg >>= λ next. elim next [ none ↦ ok none | some c ↦ walk s c rest ]

    unfoldable pub resolve_from_checked : R.Store → Skey → SPath → Bool → SdbResult (Option Skey)
    unfolding read_node walk
    resolve_from_checked s base rel false = walk s base rel.segments
    resolve_from_checked s base rel true = read_node s base >>= λ found. elim found [
      | none ↦ ok none
      | some _ ↦ walk s base rel.segments
    ]

    unfoldable pub resolve_from : R.Store → Skey → SPath → SdbResult (Option Skey)
    unfolding resolve_from_checked
    resolve_from s base rel = resolve_from_checked s base rel false

    unfoldable pub resolve : R.Store → SPath → SdbResult (Option Skey)
    unfolding resolve_from_checked
    resolve s path = resolve_from_checked s Key.root path true

    unfoldable pub leaf_scalar_opt : R.Store → Skey → SdbResult (Option Scalar)
    unfolding read_node
    leaf_scalar_opt s k = read_node s k >>= λ found. elim found [
      | some (Node.leaf scalar) ↦ ok (some scalar)
      | _ ↦ ok none
    ]
