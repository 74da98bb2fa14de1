-- ===== src/Tests/Patches.antt =====
-- A packed entity of an object and a leaf, which is overwritten in its blob.
use stratodb.Base.{
  ℕ, ◌≡◌, refl, inl, inr, List, [], ◌∷◌, append-nil, Bool-cases, arith, Option, some, some-inj,
  none, text_eq, be_bytes, lex, true, false, be_value,
}
use stratodb.Base.Dict.{lookup}
use stratodb.Base.Sorted.{IsSorted, binary_search, bisect}
use stratodb.Error.{SPath, SdbResult, ok, err, corrupt, name}
use stratodb.Key.{root, into_bytes, from_bytes}
use stratodb.Scalar.{Scalar}
use stratodb.Scalar.Codec.{encode}
use stratodb.Node.{Node, NodeKind}
use stratodb.Engine.TableKey.{TableKey}
use stratodb.Engine.TableValue.{TableValue, node}
use stratodb.Engine.Backend.{WriteNodes, default_node_step}
use stratodb.Engine.Archived.{
  Rkyv, ArchNode, ArchTree, archived_nodes, fetch, fetch_node, node_at, child_link, pairs_of,
}
use stratodb.Tree.{read_node, resolve_from, resolve_from_checked, walk, hop}
use stratodb.Tree.Write.Monad.{World}
use stratodb.Txn.Write.Patched.{replaced, Lies, LeadsTo, Patches, put_scalar_into_packed-Patches}
use stratodb.Tests.Toy.{toy_crates, as_bytes, uuid_of, of_number, below, below_if}
use stratodb.Tests.Store.{k_item, k_packed}

-- An object with the leaf `a`.
abbrev tree : List ℕ → ArchTree
tree bs =
    (into_bytes root, ArchNode.object ((97 ∷ [], into_bytes k_item) ∷ []))
    ∷ ((into_bytes k_item, ArchNode.leaf bs) ∷ [])

-- A byte, and those of the leaf.
unfoldable access : List ℕ → Option ArchTree
access [] = none
access (x ∷ bs) = some (tree bs)

instance unfoldable two_nodes : Rkyv
unfolding access
two_nodes = record { archive = λ t. none; access = access; access-archive = λ t bs e. cc }

abbrev blob_ptr : List ℕ → ℕ
blob_ptr b = 4096

abbrev leaf_ptr : List ℕ → List ℕ → ℕ
leaf_ptr b k = 4097

one_leaf :
    (k bs old : List ℕ)
    → lookup (tree bs) k ≡ some (ArchNode.leaf old)
    → (text_eq k (into_bytes root) ≡ false) × (text_eq k (into_bytes k_item) ≡ true) × (bs ≡ old)
unfolding lookup
one_leaf k bs old e = elim (Bool-cases (text_eq k (into_bytes root))) [
  | inl at_root ↦ absurd (no_leaf (rw at_root at e))
  | inr other ↦ elim (Bool-cases (text_eq k (into_bytes k_item))) [
    | inl at_item ↦ (other, at_item, leaf_in (rw (other, at_item) at e))
    | inr nowhere ↦ absurd (not_there (rw (other, nowhere) at e))
  ]
]
  where
    no_leaf :
        {children : List (List ℕ × List ℕ)}
        → some (ArchNode.object children) ≡ some (ArchNode.leaf old)
        → ⊥
    no_leaf q = cc

    leaf_in : some (ArchNode.leaf bs) ≡ some (ArchNode.leaf old) → bs ≡ old
    leaf_in q = cc

    not_there : none ≡ some (ArchNode.leaf old) → ⊥
    not_there q = cc

leaf-Lies : Lies blob_ptr leaf_ptr
unfolding two_nodes access replaced
leaf-Lies [] t k old a e = cc
leaf-Lies (x ∷ bs) t k old a e =
    let (other, at_item, same) = one_leaf k bs old (rw (← some-inj a) at e) in
    (
      x ∷ [],
      [],
      rw (same, append-nil old) refl,
      refl,
      λ new fits. rw (← some-inj a, append-nil new, other, at_item) refl,
    )

abbrev put_blob : List ℕ → TableKey → TableValue → SdbResult (Unit {0}) × List ℕ
put_blob s k (node (Node.packed _ b)) = (ok tt, b)
put_blob s k v = (err corrupt, s)

-- A store of the blob of one packed entity.
abbrev blob_store : WriteNodes
blob_store = record {
  reads = record {
    Store = List ℕ;
    fetch = λ s k. ok (some (node (Node.packed NodeKind.object s)));
    scan_from = λ s k. ok [];
    node_step = λ s k. ok none;
    child_link = λ s k n. ok none;
  };
  put = put_blob;
  delete = λ s k. (err corrupt, s);
}

abbrev blob : List ℕ
unfolding encode
blob = 0 ∷ encode [] (Scalar.u8 7)

abbrev before : World blob_store
before = record { store = blob; seed = 0 }

abbrev at_a : SPath
at_a = record { segments = name (97 ∷ []) ∷ [] }

abbrev seven : ArchTree
unfolding encode
seven = tree (encode [] (Scalar.u8 7))

seven-IsSorted : IsSorted seven
unfolding seven lex into_bytes toy_crates as_bytes root be_bytes
seven-IsSorted = ((refl, tt), (tt, tt))

put_scalar_into_packed-Patches_example :
    Patches blob_ptr leaf_ptr blob_store 9 k_packed at_a
      (Scalar.u8 9)
      before
      NodeKind.object
      seven
      k_item
unfolding LeadsTo archived_nodes fetch fetch_node node_at child_link pairs_of binary_search bisect
    read_node resolve_from resolve_from_checked walk hop default_node_step access two_nodes
    into_bytes from_bytes encode toy_crates as_bytes uuid_of of_number below below_if root be_bytes
    lookup text_eq lex seven blob before be_value
put_scalar_into_packed-Patches_example =
    put_scalar_into_packed-Patches blob_ptr leaf_ptr blob_store 9 k_packed at_a (Scalar.u8 9) before
      NodeKind.object blob seven k_item (encode [] (Scalar.u8 7)) leaf-Lies refl refl seven-IsSorted
      refl refl refl (omega arith, tt, omega arith)
