-- ===== src/Engine/Mem.antt =====
-- `MemNodes` of crates/stratodb/src/engine/backend.rs: the nodes of one packed entity, in memory.
-- The nodes are a map from the bytes of their keys.
use stratodb.Base.{ℕ, List, [], ◌∷◌, ◌++◌, map, Option, none, some, Text}
use stratodb.Base.Dict.{Dict, lookup, insert, erase, range}
use stratodb.Error.{SdbResult, ok, err, corrupt}
use stratodb.Crates.{Crates}
use stratodb.Key.{Skey, root, into_bytes, from_bytes}
use stratodb.Scalar.{Scalar}
use stratodb.Node.{Node, NodeKind}
use stratodb.Engine.TableKey.{TableKey, data_key, child, index}
use stratodb.Engine.TableValue.{TableValue, node, skey}
use stratodb.Engine.Backend.{ReadNodes, WriteNodes, default_node_step}

module _ ⦃crates : Crates⦄ where
  pub data MemNode : Type 0 where
    object : Dict Skey → MemNode
    list : List Skey → MemNode
    leaf : Scalar → MemNode

  unfoldable pub kind : MemNode → NodeKind
  kind (object _) = NodeKind.object
  kind (list _) = NodeKind.list
  kind (leaf _) = NodeKind.leaf

  unfoldable pub engine_node : MemNode → Node
  engine_node (object _) = Node.object
  engine_node (list items) = Node.list items
  engine_node (leaf s) = Node.leaf s

  abbrev pub MemNodes : Type 0
  MemNodes = Dict MemNode

  unfoldable pub root_kind : MemNodes → NodeKind
  unfolding lookup kind into_bytes
  root_kind nodes = elim (lookup nodes (into_bytes root)) [
    | none ↦ NodeKind.object
    | some n ↦ kind n
  ]

  -- A data entry; an object marker keeps the children that are there.
  unfoldable pub apply_node : MemNodes → Skey → MemNode → MemNodes
  unfolding lookup insert into_bytes
  apply_node nodes k (object m) = elim (lookup nodes (into_bytes k)) [
    | some (object _) ↦ nodes
    | _ ↦ insert nodes (into_bytes k) (object m)
  ]
  apply_node nodes k n = insert nodes (into_bytes k) n

  -- A child link; a parent that is not there becomes an object.
  unfoldable pub apply_link : MemNodes → Skey → Text → Skey → SdbResult (Unit {0}) × MemNodes
  unfolding lookup insert into_bytes
  apply_link nodes parent name k = elim (lookup nodes (into_bytes parent)) [
    | none ↦ (ok tt, insert nodes (into_bytes parent) (object (insert [] name k)))
    | some (object children) ↦
        (ok tt, insert nodes (into_bytes parent) (object (insert children name k)))
    | some _ ↦ (err corrupt, nodes)
  ]

  unfoldable pub apply : MemNodes → TableKey → TableValue → SdbResult (Unit {0}) × MemNodes
  unfolding apply_node apply_link
  apply nodes (data_key k) (node Node.object) = (ok tt, apply_node nodes k (object []))
  apply nodes (data_key k) (node (Node.list items)) = (ok tt, apply_node nodes k (list items))
  apply nodes (data_key k) (node (Node.leaf s)) = (ok tt, apply_node nodes k (leaf s))
  apply nodes (data_key k) (node (Node.packed _ _)) = (err corrupt, nodes)
  apply nodes (data_key k) _ = (err corrupt, nodes)
  apply nodes (child parent name) (skey k) = apply_link nodes parent name k
  apply nodes (child parent name) _ = (err corrupt, nodes)
  apply nodes (index _ _ _) value = (err corrupt, nodes)

  -- The children of an object, and of nothing else.
  unfoldable pub children_of : Option MemNode → Dict Skey
  children_of (some (object children)) = children
  children_of _ = []

  unfoldable pub child_link : MemNodes → Skey → Text → SdbResult (Option Skey)
  unfolding lookup into_bytes children_of
  child_link nodes parent name = ok (lookup (children_of (lookup nodes (into_bytes parent))) name)

  unfoldable pub fetch : MemNodes → TableKey → SdbResult (Option TableValue)
  unfolding lookup into_bytes children_of engine_node
  fetch nodes (data_key k) =
      ok (elim (lookup nodes (into_bytes k)) [ none ↦ none | some n ↦ some (node (engine_node n)) ])
  fetch nodes (child parent name) =
      ok (elim (lookup (children_of (lookup nodes (into_bytes parent))) name) [
        | none ↦ none
        | some k ↦ some (skey k)
      ])
  fetch nodes (index _ _ _) = ok none

  unfoldable pub scan_from :
      MemNodes → TableKey → SdbResult (List (SdbResult (TableKey × TableValue)))
  unfolding lookup range into_bytes children_of
  scan_from nodes (child parent name) = ok (
      map (λ (n, k). ok (child parent n, skey k))
        (range (children_of (lookup nodes (into_bytes parent))) name))
  scan_from nodes _ = ok []

  -- A link goes if its parent is an object.
  unfoldable pub delete : MemNodes → TableKey → SdbResult (Unit {0}) × MemNodes
  unfolding lookup insert erase into_bytes
  delete nodes (data_key k) = (ok tt, erase nodes (into_bytes k))
  delete nodes (child parent name) = elim (lookup nodes (into_bytes parent)) [
    | some (object children) ↦
        (ok tt, insert nodes (into_bytes parent) (object (erase children name)))
    | _ ↦ (ok tt, nodes)
  ]
  delete nodes (index _ _ _) = (ok tt, nodes)

  unfoldable pub mem_reads : ReadNodes
  unfolding default_node_step fetch scan_from child_link
  mem_reads = record {
    Store = MemNodes;
    fetch = fetch;
    scan_from = scan_from;
    node_step = default_node_step fetch;
    child_link = child_link;
  }

  unfoldable pub mem_nodes : WriteNodes
  unfolding mem_reads apply delete
  mem_nodes = record { reads = mem_reads; put = apply; delete = delete }

  -- The entries of one node. The key of a map's entry stands for the `Skey` with these bytes.
  unfoldable pub entries_of : List ℕ × MemNode → List (TableKey × TableValue)
  unfolding from_bytes
  entries_of (k, object children) =
      (data_key (from_bytes k), node Node.object)
      ∷ map (λ (name, c). (child (from_bytes k) name, skey c)) children
  entries_of (k, list items) = (data_key (from_bytes k), node (Node.list items)) ∷ []
  entries_of (k, leaf s) = (data_key (from_bytes k), node (Node.leaf s)) ∷ []

  unfoldable pub into_entries : MemNodes → List (TableKey × TableValue)
  unfolding entries_of
  into_entries [] = []
  into_entries (entry ∷ nodes) = entries_of entry ++ into_entries nodes
