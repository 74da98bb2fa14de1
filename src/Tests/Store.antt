-- ===== src/Tests/Store.antt =====
-- A small store of nodes, and archives of trees of one leaf.
use stratodb.Base.{
  zero, suc, Text, text_eq, ℕ, ◌≡◌, refl, inl, inr, List, [], ◌∷◌, ◌++◌, Bool-cases, arith, Option,
  some, none, some-inj, length, take, drop, take-prefix, drop-prefix, length-append, leb, true,
  ◌==◌, if◌then◌else◌,
}
use stratodb.Error.{SdbResult, ok}
use stratodb.Key.{Skey, root, into_bytes}
use stratodb.Scalar.{Scalar}
use stratodb.Scalar.Codec.{encode}
use stratodb.Node.{Node, NodeKind}
use stratodb.Engine.TableKey.{TableKey, data_key, child, index}
use stratodb.Engine.TableValue.{TableValue, node, skey}
use stratodb.Engine.Archived.{Rkyv, ArchTree, ArchNode}
use stratodb.Engine.Backend.{ReadNodes, default_node_step, default_child_link}
use stratodb.Tests.Toy.{toy_crates}

unfoldable archive : ArchTree → Option (List ℕ)
archive ((k, ArchNode.leaf bs) ∷ []) = if length k == 16 then some (k ++ bs) else none
archive _ = none

unfoldable pub access : List ℕ → Option ArchTree
access bs =
    if leb 16 (length bs) then some ((take 16 bs, ArchNode.leaf (drop 16 bs)) ∷ []) else none

archive-access : (t : ArchTree) (bs : List ℕ) → archive t ≡ some bs → access bs ≡ some t
unfolding archive access
archive-access [] bs e = cc
archive-access ((k, ArchNode.leaf b) ∷ []) bs e = elim (Bool-cases (length k == 16)) [
  | inl full ↦
      let same : k ++ b ≡ bs = some-inj (rw full at e) in
      let size : length k ≡ 16 = ground arith in
      let long : leb 16 (length (k ++ b)) ≡ true = ground (arith, length-append k b, size) in
      rw (← same, long, take-prefix 16 k b size, drop-prefix 16 k b size) refl
  | inr short ↦ let no_blob : none ≡ some bs = rw short at e in cc
]
archive-access ((k, ArchNode.leaf b) ∷ (x ∷ t)) bs e = cc
archive-access ((k, ArchNode.list b) ∷ t) bs e = cc
archive-access ((k, ArchNode.object b) ∷ t) bs e = cc

instance unfoldable pub toy_rkyv : Rkyv
unfolding archive access archive-access
toy_rkyv = record { archive = archive; access = access; access-archive = archive-access }

-- The document `{ a: [5], p: 7 }`, with its `p` packed.
abbrev pub k_list : Skey
unfolding toy_crates
k_list = record { uuid = record { value = 1; fits = refl } }

abbrev pub k_item : Skey
unfolding toy_crates
k_item = record { uuid = record { value = 2; fits = refl } }

abbrev pub k_packed : Skey
unfolding toy_crates
k_packed = record { uuid = record { value = 3; fits = refl } }

abbrev pub blob : List ℕ
unfolding encode into_bytes
blob = into_bytes root ++ encode [] (Scalar.u8 7)

abbrev pub number : Skey → ℕ
unfolding toy_crates
number k = k.uuid.value

abbrev node_at : ℕ → Option Node
node_at zero = some Node.object
node_at (suc zero) = some (Node.list (k_item ∷ []))
node_at (suc (suc zero)) = some (Node.leaf (Scalar.u8 5))
node_at (suc (suc (suc zero))) = some (Node.packed NodeKind.leaf blob)
node_at _ = none

abbrev link_at : ℕ → Text → Option Skey
link_at zero n =
    if text_eq n (97 ∷ [])
    then some k_list
    else (if text_eq n (112 ∷ []) then some k_packed else none)
link_at _ n = none

abbrev toy_fetch : Unit {0} → TableKey → SdbResult (Option TableValue)
toy_fetch s (data_key k) = ok (elim (node_at (number k)) [ some n ↦ some (node n) | none ↦ none ])
toy_fetch s (child k n) = ok (elim (link_at (number k) n) [ some c ↦ some (skey c) | none ↦ none ])
toy_fetch s (index _ _ _) = ok none

-- The links of an object from a lower bound of no name.
abbrev links_at : Skey → ℕ → List (SdbResult (TableKey × TableValue))
links_at k zero =
    ok (child k (97 ∷ []), skey k_list) ∷ (ok (child k (112 ∷ []), skey k_packed) ∷ [])
links_at k _ = []

abbrev toy_scan : Unit {0} → TableKey → SdbResult (List (SdbResult (TableKey × TableValue)))
toy_scan s (child k []) = ok (links_at k (number k))
toy_scan s _ = ok []

-- A store of these nodes alone.
abbrev pub toy_reads : ReadNodes
unfolding default_node_step default_child_link
toy_reads = record {
  Store = Unit {0};
  fetch = toy_fetch;
  scan_from = toy_scan;
  node_step = default_node_step toy_fetch;
  child_link = default_child_link toy_fetch;
}

abbrev pub here : toy_reads.Store
unfolding default_node_step default_child_link
here = tt
