-- ===== src/Tests/Archives.antt =====
-- The archive of an object with one leaf.
use stratodb.Base.{
  ℕ, ◌≡◌, List, [], ◌∷◌, be_bytes, Bool-cases, inl, inr, none, some, text_eq, arith,
}
use stratodb.Base.Dict.{lookup}
use stratodb.Error.{ok}
use stratodb.Key.{Skey, root, into_bytes}
use stratodb.Scalar.{Scalar}
use stratodb.Scalar.Codec.{encode}
use stratodb.Node.{Node}
use stratodb.Engine.TableKey.{data_key}
use stratodb.Engine.TableValue.{node}
use stratodb.Engine.Mem.{MemNode, MemNodes, engine_node}
use stratodb.Engine.Mem
use stratodb.Engine.Archived.{fetch, arch_tree}
use stratodb.Engine.Archived.InPlace.{AreStorable, AreOrdered, fetch-arch_tree}
use stratodb.Tests.Toy.{toy_crates, as_bytes}
use stratodb.Tests.Store.{k_item}

abbrev the_object : List ℕ × MemNode
the_object = (into_bytes root, MemNode.object ((97 ∷ [], k_item) ∷ []))

abbrev the_leaf : MemNodes
the_leaf = (into_bytes k_item, MemNode.leaf (Scalar.u8 5)) ∷ []

scalar_in : {s t : Scalar} → some (MemNode.leaf s) ≡ some (MemNode.leaf t) → s ≡ t
scalar_in e = cc

both-AreStorable : AreStorable (the_object ∷ the_leaf)
unfolding lookup encode
both-AreStorable k s e = elim (Bool-cases (text_eq k (into_bytes root))) [
  | inl at_root ↦ absurd (no_leaf (rw at_root at e))
  | inr other ↦ elim (Bool-cases (text_eq k (into_bytes k_item))) [
    | inl at_item ↦ rw (← scalar_in (rw (other, at_item) at e)) (omega arith, tt, omega arith)
    | inr none_there ↦ absurd (not_there (rw (other, none_there) at e))
  ]
]
  where
    no_leaf :
        {children : List (List ℕ × Skey)}
        → some (MemNode.object children) ≡ some (MemNode.leaf s)
        → ⊥
    no_leaf q = cc

    not_there : none ≡ some (MemNode.leaf s) → ⊥
    not_there q = cc

both-AreOrdered : AreOrdered (the_object ∷ the_leaf)
unfolding lookup
both-AreOrdered k children e = elim (Bool-cases (text_eq k (into_bytes root))) [
  | inl at_root ↦ rw (← children_in (rw at_root at e)) (tt, tt)
  | inr other ↦ elim (Bool-cases (text_eq k (into_bytes k_item))) [
    | inl at_item ↦ absurd (no_object (rw (other, at_item) at e))
    | inr none_there ↦ absurd (not_there (rw (other, none_there) at e))
  ]
]
  where
    children_in :
        {a b : List (List ℕ × Skey)} → some (MemNode.object a) ≡ some (MemNode.object b) → a ≡ b
    children_in q = cc

    no_object : {s : Scalar} → some (MemNode.leaf s) ≡ some (MemNode.object children) → ⊥
    no_object q = cc

    not_there : none ≡ some (MemNode.object children) → ⊥
    not_there q = cc

fetch-arch_tree_example :
    fetch (arch_tree (the_object ∷ the_leaf)) (data_key k_item)
    ≡ ok (some (node (Node.leaf (Scalar.u8 5))))
unfolding Mem.fetch lookup into_bytes text_eq toy_crates as_bytes be_bytes root engine_node
fetch-arch_tree_example =
    fetch-arch_tree the_object the_leaf (data_key k_item) both-AreStorable both-AreOrdered
