-- ===== src/Engine/Archived.antt =====
-- crates/stratodb/src/engine/archived.rs, and `MemNodes::from_blob`, `into_blob` and `into_packed`
-- of engine/backend.rs: the blob of a packed entity. rkyv is a parameter, and the addresses inside
-- an archive are not modelled here.
pub mod InPlace
use stratodb.Base.{ℕ, ◌≡◌, List, [], ◌∷◌, map, Option, none, some, Text}
use stratodb.Base.Dict.{Dict, insert, range}
use stratodb.Base.Sorted.{sort_by_key, binary_search}
use stratodb.Error.{SdbResult, ok, err, corrupt, ◌>>=◌}
use stratodb.Crates.{Crates}
use stratodb.Codec.{new}
use stratodb.Key.{Skey, root, into_bytes, from_bytes}
use stratodb.Scalar.{Scalar}
use stratodb.Scalar.Codec.{encode, decode}
use stratodb.Node.{Node}
use stratodb.Engine.TableKey.{TableKey, data_key, child, index}
use stratodb.Engine.TableValue.{TableValue, node, skey}
use stratodb.Engine.Backend.{ReadNodes, default_node_step}
use stratodb.Engine.Mem.{MemNode, MemNodes, root_kind}

pub data ArchNode : Type 0 where
  object : Dict (List ℕ) → ArchNode
  list : List (List ℕ) → ArchNode
  leaf : List ℕ → ArchNode

abbrev pub ArchTree : Type 0
ArchTree = Dict ArchNode

-- rkyv: an archive of a tree, and access to one that was checked.
pub record Rkyv : Type 0 where
  pub archive : ArchTree → Option (List ℕ)
  pub access : List ℕ → Option ArchTree
  pub access-archive : (t : ArchTree) (bs : List ℕ) → archive t ≡ some bs → access bs ≡ some t

module _ ⦃rkyv : Rkyv⦄ where
  unfoldable pub to_bytes : ArchTree → SdbResult (List ℕ)
  to_bytes t = elim (rkyv.archive t) [ none ↦ err corrupt | some bs ↦ ok bs ]

  -- `ArchivedNodes::new`: the blob with its tree.
  unfoldable pub new_archived : List ℕ → SdbResult ArchTree
  new_archived blob = elim (rkyv.access blob) [ none ↦ err corrupt | some t ↦ ok t ]

module _ ⦃crates : Crates⦄ where
  pub data NodeView : Type 0 where
    object : Dict Skey → NodeView
    list : List Skey → NodeView
    leaf : Scalar → NodeView

  unfoldable pub decode_leaf : List ℕ → SdbResult Scalar
  unfolding decode new
  decode_leaf bs = decode (new bs) >>= λ p. ok p.0

  unfoldable pub view_of : ArchNode → SdbResult NodeView
  unfolding from_bytes decode_leaf
  view_of (ArchNode.object pairs) = ok (object (map (λ (n, k). (n, from_bytes k)) pairs))
  view_of (ArchNode.list items) = ok (list (map from_bytes items))
  view_of (ArchNode.leaf bs) = decode_leaf bs >>= λ s. ok (leaf s)

  -- The pairs are collected up to the first error.
  unfoldable pub entries : ArchTree → SdbResult (List (Skey × NodeView))
  unfolding view_of from_bytes
  entries [] = ok []
  entries ((k, n) ∷ t) =
      view_of n >>= λ view. entries t >>= λ rest. ok ((from_bytes k, view) ∷ rest)

  unfoldable pub collect_children : Dict Skey → List (Text × Skey) → Dict Skey
  unfolding insert
  collect_children children [] = children
  collect_children children ((n, k) ∷ pairs) = collect_children (insert children n k) pairs

  unfoldable pub node_of : NodeView → MemNode
  unfolding collect_children
  node_of (object pairs) = MemNode.object (collect_children [] pairs)
  node_of (list items) = MemNode.list items
  node_of (leaf s) = MemNode.leaf s

  unfoldable pub insert_views : MemNodes → List (Skey × NodeView) → MemNodes
  unfolding insert node_of into_bytes
  insert_views nodes [] = nodes
  insert_views nodes ((k, view) ∷ views) =
      insert_views (insert nodes (into_bytes k) (node_of view)) views

  unfoldable pub arch_of : MemNode → ArchNode
  unfolding encode into_bytes
  arch_of (MemNode.object children) = ArchNode.object (map (λ (n, k). (n, into_bytes k)) children)
  arch_of (MemNode.list items) = ArchNode.list (map into_bytes items)
  arch_of (MemNode.leaf s) = ArchNode.leaf (encode [] s)

  -- A store that was never written is archived as an empty object.
  unfoldable pub or_root : ArchTree → ArchTree
  unfolding into_bytes
  or_root [] = (into_bytes root, ArchNode.object []) ∷ []
  or_root (n ∷ nodes) = n ∷ nodes

  -- The nodes of a `HashMap` come in no order, and no two have one key.
  unfoldable pub arch_tree : MemNodes → ArchTree
  unfolding arch_of or_root sort_by_key
  arch_tree nodes = sort_by_key (or_root (map (λ (k, m). (k, arch_of m)) nodes))

  -- An archive that is read in place.
  unfoldable pub pairs_of : Option ArchNode → Dict (List ℕ)
  pairs_of (some (ArchNode.object pairs)) = pairs
  pairs_of _ = []

  unfoldable pub node_at : ArchTree → Skey → Option ArchNode
  unfolding binary_search into_bytes
  node_at t k = binary_search t (into_bytes k)

  unfoldable pub child_link : ArchTree → Skey → Text → SdbResult (Option Skey)
  unfolding binary_search node_at pairs_of from_bytes
  child_link t parent name = ok (elim (binary_search (pairs_of (node_at t parent)) name) [
    | none ↦ none
    | some k ↦ some (from_bytes k)
  ])

  unfoldable pub fetch_node : ArchNode → SdbResult Node
  unfolding from_bytes decode_leaf
  fetch_node (ArchNode.object pairs) = ok Node.object
  fetch_node (ArchNode.list items) = ok (Node.list (map from_bytes items))
  fetch_node (ArchNode.leaf bs) = decode_leaf bs >>= λ s. ok (Node.leaf s)

  unfoldable pub fetch : ArchTree → TableKey → SdbResult (Option TableValue)
  unfolding node_at fetch_node child_link
  fetch t (data_key k) = elim (node_at t k) [
    | none ↦ ok none
    | some n ↦ fetch_node n >>= λ found. ok (some (node found))
  ]
  fetch t (child parent name) =
      child_link t parent name >>= λ found. ok (elim found [ none ↦ none | some k ↦ some (skey k) ])
  fetch t (index _ _ _) = ok none

  unfoldable pub scan_from :
      ArchTree → TableKey → SdbResult (List (SdbResult (TableKey × TableValue)))
  unfolding range node_at pairs_of from_bytes
  scan_from t (child parent name) = ok (
      map (λ (n, k). ok (child parent n, skey (from_bytes k)))
        (range (pairs_of (node_at t parent)) name))
  scan_from t _ = ok []

  unfoldable pub archived_nodes : ReadNodes
  unfolding fetch scan_from child_link default_node_step
  archived_nodes = record {
    Store = ArchTree;
    fetch = fetch;
    scan_from = scan_from;
    node_step = default_node_step fetch;
    child_link = child_link;
  }

  module _ ⦃rkyv : Rkyv⦄ where
    unfoldable pub from_blob : List ℕ → SdbResult MemNodes
    unfolding new_archived entries insert_views
    from_blob blob = new_archived blob >>= λ t. entries t >>= λ views. ok (insert_views [] views)

    unfoldable pub into_blob : MemNodes → SdbResult (List ℕ)
    unfolding to_bytes arch_tree
    into_blob nodes = to_bytes (arch_tree nodes)

    unfoldable pub into_packed : MemNodes → SdbResult Node
    unfolding root_kind into_blob
    into_packed nodes = into_blob nodes >>= λ blob. ok (Node.packed (root_kind nodes) blob)
