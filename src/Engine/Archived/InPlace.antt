-- ===== src/Engine/Archived/InPlace.antt =====
-- Reading an archive in place (crates/stratodb/src/engine/archived.rs) is reading the nodes in memory
-- (`MemNodes` of engine/backend.rs) that it was made of.
use stratodb.Base.{
  ℕ, ◌^◌, ◌<◌, ◌≡◌, refl, ap, ◌∙◌, List, [], ◌∷◌, ◌++◌, append-nil, map, length, Bool-cases, inl,
  inr, Option, none, some, Option-cases, Text, text_eq,
}
use stratodb.Base.Dict.{Dict, lookup}
use stratodb.Base.Sorted.{
  AreBehind, IsSorted, sort_by_key, sort_by_key-IsSorted, lookup-sort_by_key, bisect, binary_search,
  binary_search-lookup,
}
use stratodb.Error.{ok}
use stratodb.Crates.{Crates}
use stratodb.Codec.{new}
use stratodb.Key.{Skey, into_bytes, from_bytes, from_bytes-into_bytes}
use stratodb.Scalar.{Scalar, IsWellTyped, IsStorable}
use stratodb.Scalar.Codec.{encode}
use stratodb.Scalar.RoundTrip.{decode-encode}
use stratodb.Engine.TableKey.{TableKey, data_key, child, index}
use stratodb.Engine.Mem.{MemNode, MemNodes, children_of, engine_node}
use stratodb.Engine.Mem
use stratodb.Engine.Archived.{
  ArchNode, ArchTree, arch_of, or_root, arch_tree, node_at, decode_leaf, fetch_node, pairs_of,
  child_link, fetch,
}

-- Looking up in the images of the values.
lookup-map :
    {V W : Type 0} (f : V → W) (d : Dict V) (k : List ℕ)
    → lookup (map (λ (j, v). (j, f v)) d) k
      ≡ elim (lookup d k) [ none ↦ none | some v ↦ some (f v) ]
unfolding lookup
lookup-map f [] k = refl
lookup-map f ((j, v) ∷ d) k = elim (Bool-cases (text_eq k j)) [
  | inl same ↦ rw same refl
  | inr differ ↦ rw differ (lookup-map f d k)
]

map-AreBehind :
    {V W : Type 0} (f : V → W) (k : List ℕ) (d : Dict V)
    → AreBehind k d
    → AreBehind k (map (λ (j, v). (j, f v)) d)
map-AreBehind f k [] h = tt
map-AreBehind f k ((j, v) ∷ d) (h, hs) = (h, map-AreBehind f k d hs)

map-IsSorted :
    {V W : Type 0} (f : V → W) (d : Dict V) → IsSorted d → IsSorted (map (λ (j, v). (j, f v)) d)
map-IsSorted f [] h = tt
map-IsSorted f ((k, v) ∷ d) (h, hs) = (map-AreBehind f k d h, map-IsSorted f d hs)

module _ ⦃crates : Crates⦄ where
  abbrev pub IsLeafStorable : Scalar → Type 0
  IsLeafStorable s = IsWellTyped s × IsStorable s × (length (encode [] s) < 2 ^ 64)

  -- Every leaf can be stored and read back.
  abbrev pub AreStorable : MemNodes → Type 0
  AreStorable nodes =
      (k : List ℕ) (s : Scalar) → lookup nodes k ≡ some (MemNode.leaf s) → IsLeafStorable s

  -- The children of an object are a `BTreeMap`, in the order of their names.
  abbrev pub AreOrdered : MemNodes → Type 0
  AreOrdered nodes =
      (k : List ℕ) (children : Dict Skey)
      → lookup nodes k ≡ some (MemNode.object children)
      → IsSorted children

  pub decode_leaf-encode : (s : Scalar) → IsLeafStorable s → decode_leaf (encode [] s) ≡ ok s
  unfolding decode_leaf new
  decode_leaf-encode s (t, k, fits) =
      let whole : encode [] s ++ [] ≡ encode [] s = append-nil (encode [] s) in
      let back = decode-encode [] s [] t k (rw whole fits) in rw (rw whole at back) refl

  map-from_bytes : (items : List Skey) → map from_bytes (map into_bytes items) ≡ items
  map-from_bytes [] = refl
  map-from_bytes (k ∷ items) = rw (from_bytes-into_bytes k, map-from_bytes items) refl

  fetch_node-arch_of :
      (m : MemNode)
      → ((s : Scalar) → m ≡ MemNode.leaf s → IsLeafStorable s)
      → fetch_node (arch_of m) ≡ ok (engine_node m)
  unfolding fetch_node arch_of engine_node
  fetch_node-arch_of (MemNode.object children) h = refl
  fetch_node-arch_of (MemNode.list items) h = rw (map-from_bytes items) refl
  fetch_node-arch_of (MemNode.leaf s) h = rw (decode_leaf-encode s (h s refl)) refl

  -- What is under a key of the archive, by what is there in memory.
  abbrev arch_of_opt : Option MemNode → Option ArchNode
  arch_of_opt none = none
  arch_of_opt (some m) = some (arch_of m)

  node_at-arch_tree :
      (n : List ℕ × MemNode) (nodes : MemNodes) (k : List ℕ)
      → binary_search (arch_tree (n ∷ nodes)) k ≡ arch_of_opt (lookup (n ∷ nodes) k)
  unfolding arch_tree or_root
  node_at-arch_tree n nodes k =
      let tree : ArchTree = map (λ (j, m). (j, arch_of m)) (n ∷ nodes) in
      binary_search-lookup (sort_by_key tree) k (sort_by_key-IsSorted tree)
      ∙ lookup-sort_by_key tree k
      ∙ lookup-map arch_of (n ∷ nodes) k
      ∙ same (lookup (n ∷ nodes) k)
    where
      same :
          (o : Option MemNode) → elim o [ none ↦ none | some v ↦ some (arch_of v) ] ≡ arch_of_opt o
      same none = refl
      same (some m) = refl

  -- A link out of a node.
  link_at-arch_of :
      (o : Option MemNode) (name : Text)
      → ((children : Dict Skey) → o ≡ some (MemNode.object children) → IsSorted children)
      → elim (binary_search (pairs_of (arch_of_opt o)) name) [
        | none ↦ none
        | some k ↦ some (from_bytes k)
      ]
        ≡ lookup (children_of o) name
  unfolding pairs_of children_of arch_of lookup binary_search bisect
  link_at-arch_of none name h = refl
  link_at-arch_of (some (MemNode.list items)) name h = refl
  link_at-arch_of (some (MemNode.leaf s)) name h = refl
  link_at-arch_of (some (MemNode.object children)) name h =
      let sorted = map-IsSorted into_bytes children (h children refl) in
      rw
        (
          binary_search-lookup (map (λ (n, k). (n, into_bytes k)) children) name sorted,
          lookup-map into_bytes children name,
        )
        (same (lookup children name))
    where
      same :
          (o : Option Skey)
          → elim (elim o as (λ _. Option (List ℕ)) [ none ↦ none | some v ↦ some (into_bytes v) ]) [
            | none ↦ none
            | some k ↦ some (from_bytes k)
          ]
            ≡ o
      same none = refl
      same (some k) = ap some (from_bytes-into_bytes k)

  -- An archive that has under each key what is there in memory.
  module _ (t : ArchTree) (d : MemNodes)
      (agree : (k : List ℕ) → binary_search t k ≡ arch_of_opt (lookup d k)) where
    fetch_link :
        (parent : Skey) (name : Text)
        → AreOrdered d
        → fetch t (child parent name) ≡ Mem.fetch d (child parent name)
    unfolding fetch child_link node_at Mem.fetch
    fetch_link parent name ordered =
        rw
          (
            agree (into_bytes parent),
            link_at-arch_of (lookup d (into_bytes parent)) name
                (λ children e. ordered (into_bytes parent) children e),
          )
          refl

    fetch_data : (k : Skey) → AreStorable d → fetch t (data_key k) ≡ Mem.fetch d (data_key k)
    unfolding fetch node_at Mem.fetch
    fetch_data k h = elim (Option-cases (lookup d (into_bytes k))) [
      | inl e ↦ rw (agree (into_bytes k), fetch, e) refl
      | inr (m, e) ↦
          let stored = fetch_node-arch_of m (λ s is. h (into_bytes k) s (rw is at e)) in
          rw (agree (into_bytes k), fetch, e, stored) refl
    ]

  fetch_index :
      (t : ArchTree) (d : MemNodes) (id : ℕ) (cols : List ℕ) (entity : Option Skey)
      → fetch t (index id cols entity) ≡ Mem.fetch d (index id cols entity)
  unfolding fetch Mem.fetch
  fetch_index t d id cols entity = refl

  -- Every key has in the archive of nodes, read in place by binary search, what it has in memory,
  -- where the leaves can be stored, the children of each object are in the order of their names, and
  -- there is a node.
  pub fetch-arch_tree :
      (n : List ℕ × MemNode) (nodes : MemNodes) (k : TableKey)
      → AreStorable (n ∷ nodes)
      → AreOrdered (n ∷ nodes)
      → fetch (arch_tree (n ∷ nodes)) k ≡ Mem.fetch (n ∷ nodes) k
  fetch-arch_tree n nodes (data_key k) h ordered =
      fetch_data (arch_tree (n ∷ nodes)) (n ∷ nodes) (node_at-arch_tree n nodes) k h
  fetch-arch_tree n nodes (child parent name) h ordered =
      fetch_link (arch_tree (n ∷ nodes)) (n ∷ nodes) (node_at-arch_tree n nodes) parent name ordered
  fetch-arch_tree n nodes (index id cols entity) h ordered =
      fetch_index (arch_tree (n ∷ nodes)) (n ∷ nodes) id cols entity
