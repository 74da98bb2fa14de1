-- ===== src/Txn/Write/Patched.antt =====
-- A leaf of a packed entity that is overwritten in the bytes of the blob.
use stratodb.Base.{
  ◌++◌, ◌+◌, ◌-◌, ◌∙◌, sym, subst, append_assoc, take, drop, leb, take-append, drop-append,
  length-append, ℕ, ◌≡◌, refl, List, [], ◌∷◌, Bool-cases, inl, inr, false, some, length, text_eq,
  text_eq_sound, if◌then◌else◌, ◌==◌, true, arith,
}
use stratodb.Base.Dict.{Dict, lookup}
use stratodb.Base.Sorted.{AreBehind, IsSorted, binary_search, binary_search-lookup}
use stratodb.Error.{SPath, ok}
use stratodb.Crates.{Crates}
use stratodb.Key.{Skey, into_bytes}
use stratodb.Key
use stratodb.Scalar.{Scalar}
use stratodb.Scalar.Codec.{encode}
use stratodb.Node.{Node, NodeKind}
use stratodb.Engine.TableKey.{data_key, child}
use stratodb.Engine.TableValue.{node}
use stratodb.Engine.Backend.{WriteNodes}
use stratodb.Engine.Archived.{
  Rkyv, ArchNode, ArchTree, archived_nodes, fetch, fetch_node, child_link, node_at, pairs_of,
}
use stratodb.Engine.Archived.InPlace.{IsLeafStorable, decode_leaf-encode}
use stratodb.Tree.{read_node, resolve_from}
use stratodb.Tree.Pack.{write_packed}
use stratodb.Tree.Write.Monad.{World, ◌>>=◌, reading}
use stratodb.Txn.Write.Splice.{
  new_unchecked, copy_from_slice, leaf_byte_span, same_length, span, put_scalar_into_packed,
}

-- The entry of a key with another value.
unfoldable pub replaced : {V : Type 0} → Dict V → List ℕ → V → Dict V
replaced [] k v = []
replaced ((j, w) ∷ d) k v =
    let rest = replaced d k v in if text_eq k j then (j, v) ∷ d else (j, w) ∷ rest

lookup-replaced :
    {V : Type 0} (d : Dict V) (k : List ℕ) (v w : V)
    → lookup d k ≡ some w
    → lookup (replaced d k v) k ≡ some v
unfolding lookup replaced
lookup-replaced [] k v w e = cc
lookup-replaced ((j, x) ∷ d) k v w e = elim (Bool-cases (text_eq k j)) [
  | inl same ↦ rw (same, same) refl
  | inr differ ↦ rw (differ, differ) (lookup-replaced d k v w (rw differ at e))
]

lookup-replaced_other :
    {V : Type 0} (d : Dict V) (k j : List ℕ) (v : V)
    → text_eq j k ≡ false
    → lookup (replaced d k v) j ≡ lookup d j
unfolding lookup replaced
lookup-replaced_other [] k j v other = refl
lookup-replaced_other ((i, x) ∷ d) k j v other = elim (Bool-cases (text_eq k i)) [
  | inl same ↦
      let apart : text_eq j i ≡ false = rw (← text_eq_sound k i same) other in rw (same, apart) refl
  | inr differ ↦ elim (Bool-cases (text_eq j i)) [
    | inl here ↦ rw (differ, here) refl
    | inr there ↦ rw (differ, there) (lookup-replaced_other d k j v other)
  ]
]

replaced-AreBehind :
    {V : Type 0} (j : List ℕ) (d : Dict V) (k : List ℕ) (v : V)
    → AreBehind j d
    → AreBehind j (replaced d k v)
unfolding replaced
replaced-AreBehind j [] k v h = tt
replaced-AreBehind j ((i, w) ∷ d) k v (h, hs) = elim (Bool-cases (text_eq k i)) [
  | inl same ↦ rw same (h, hs)
  | inr other ↦ rw other (h, replaced-AreBehind j d k v hs)
]

replaced-IsSorted :
    {V : Type 0} (d : Dict V) (k : List ℕ) (v : V) → IsSorted d → IsSorted (replaced d k v)
unfolding replaced
replaced-IsSorted [] k v h = tt
replaced-IsSorted ((i, w) ∷ d) k v (h, hs) = elim (Bool-cases (text_eq k i)) [
  | inl same ↦ rw same (h, hs)
  | inr other ↦ rw other (replaced-AreBehind i d k v h, replaced-IsSorted d k v hs)
]

-- Bytes in the middle of a list, with as many others.
copy_middle :
    (a old b new : List ℕ)
    → length new ≡ length old
    → copy_from_slice (a ++ old ++ b) (length a) (length old) new ≡ ok (a ++ new ++ b)
unfolding copy_from_slice
copy_middle a old b new fits =
    let whole = length-append (a ++ old) b in
    let front = length-append a old in
    let room : leb (length a + length old) (length (a ++ old ++ b)) ≡ true =
      ground (arith, whole, front) in
    let behind : drop (length a + length old) (a ++ old ++ b) ≡ b =
      rw (← front) (drop-append (a ++ old) b) in
    let before : take (length a) (a ++ old ++ b) ≡ a =
      rw (append_assoc a old b) (take-append a (old ++ b)) in
    rw (room, behind, before) refl

module _ ⦃crates : Crates⦄ where
  -- The path leads to the key in the archive.
  unfoldable pub LeadsTo : ArchTree → SPath → Skey → Type 0
  unfolding archived_nodes
  LeadsTo t rel k = resolve_from archived_nodes t Key.root rel ≡ ok (some k)

module _ ⦃crates : Crates⦄ ⦃rkyv : Rkyv⦄ (blob_ptr : List ℕ → ℕ)
    (leaf_ptr : List ℕ → List ℕ → ℕ) where
  -- The bytes of a leaf stand in the blob at their address, and others of the same length in their
  -- place give the archive with that leaf.
  abbrev pub Lies : Type 0
  Lies =
      (blob : List ℕ) (t : ArchTree) (k old : List ℕ)
      → rkyv.access blob ≡ some t
      → lookup t k ≡ some (ArchNode.leaf old)
      → (a : List ℕ) × (b : List ℕ) × (blob ≡ a ++ old ++ b)
        × (leaf_ptr blob k ≡ blob_ptr blob + length a)
        × ((bytes : List ℕ)
            → length bytes ≡ length old
            → rkyv.access (a ++ bytes ++ b) ≡ some (replaced t k (ArchNode.leaf bytes)))

  -- The nodes of the two archives differ in the leaf of a key.
  pub record Overwritten (t t' : ArchTree) (k : Skey) (scalar : Scalar) : Type 0 where
    pub itself : fetch t' (data_key k) ≡ ok (some (node (Node.leaf scalar)))
    pub others :
        (j : Skey)
        → text_eq (into_bytes j) (into_bytes k) ≡ false
        → fetch t' (data_key j) ≡ fetch t (data_key j)
    pub links : (p : Skey) (n : List ℕ) → fetch t' (child p n) ≡ fetch t (child p n)

  replaced-Overwritten :
      (t : ArchTree) (k : Skey) (old : List ℕ) (scalar : Scalar)
      → IsSorted t
      → lookup t (into_bytes k) ≡ some (ArchNode.leaf old)
      → IsLeafStorable scalar
      → Overwritten t (replaced t (into_bytes k) (ArchNode.leaf (encode [] scalar))) k scalar
  unfolding fetch fetch_node child_link node_at pairs_of
  replaced-Overwritten t k old scalar sorted e storable =
      let bytes : ArchNode = ArchNode.leaf (encode [] scalar) in
      let t' : ArchTree = replaced t (into_bytes k) bytes in
      let new : (j : List ℕ) → binary_search t' j ≡ lookup t' j =
        λ j. binary_search-lookup t' j (replaced-IsSorted t (into_bytes k) bytes sorted) in
      let was : (j : List ℕ) → binary_search t j ≡ lookup t j =
        λ j. binary_search-lookup t j sorted in
      let there : binary_search t' (into_bytes k) ≡ some bytes =
        new (into_bytes k) ∙ lookup-replaced t (into_bytes k) bytes (ArchNode.leaf old) e in
      let kept : (j : List ℕ)
          → text_eq j (into_bytes k) ≡ false
          → binary_search t' j ≡ binary_search t j =
        λ j other. new j ∙ lookup-replaced_other t (into_bytes k) j bytes other ∙ sym (was j) in
      record {
        itself = rw (fetch, node_at, there, fetch_node, decode_leaf-encode scalar storable) refl;
        others = λ j other. rw (fetch, node_at, kept (into_bytes j) other) refl;
        links = λ p n. elim (Bool-cases (text_eq (into_bytes p) (into_bytes k))) [
          | inl same ↦
              rw
                (
                  fetch,
                  child_link,
                  node_at,
                  text_eq_sound (into_bytes p) (into_bytes k) same,
                  there,
                  was (into_bytes k),
                  e,
                )
                refl
          | inr other ↦ rw (fetch, child_link, node_at, kept (into_bytes p) other) refl
        ];
      }

  span-leaf :
      (blob : List ℕ) (t : ArchTree) (rel : SPath) (k : Skey) (old bytes : List ℕ) (offset : ℕ)
      → IsSorted t
      → rkyv.access blob ≡ some t
      → LeadsTo t rel k
      → lookup t (into_bytes k) ≡ some (ArchNode.leaf old)
      → length bytes ≡ length old
      → leaf_ptr blob (into_bytes k) ≡ blob_ptr blob + offset
      → span blob_ptr leaf_ptr blob rel bytes ≡ ok (some (offset, length old))
  unfolding LeadsTo span new_unchecked leaf_byte_span node_at same_length
  span-leaf blob t rel k old bytes offset sorted a r e fits at_ptr =
      let same : (length old == length bytes) ≡ true = ground (arith, fits) in
      let distance : blob_ptr blob + offset - blob_ptr blob ≡ offset = omega arith in
      rw
        (
          span,
          new_unchecked,
          a,
          r,
          leaf_byte_span,
          node_at,
          binary_search-lookup t (into_bytes k) sorted,
          e,
          same,
          at_ptr,
          distance,
        )
        refl

  module _ (W : WriteNodes) (fuel : ℕ) where
    -- The put writes a blob that can be accessed, with the leaf of the key overwritten.
    pub record Patches (entity : Skey) (rel : SPath) (scalar : Scalar) (w : World W)
        (root : NodeKind) (t : ArchTree) (k : Skey) : Type 0 where
      pub patched : List ℕ
      pub archive : ArchTree
      pub puts :
          put_scalar_into_packed blob_ptr leaf_ptr W fuel entity rel scalar w
          ≡ write_packed W fuel entity (Node.packed root patched) w
      pub accessed : rkyv.access patched ≡ some archive
      pub overwritten : Overwritten t archive k scalar

    -- In a packed entity with a blob of nodes in the order of their keys, where the path leads to a leaf
    -- whose encoding is as long as that of the new scalar, the put ends with writing a blob that can
    -- be accessed, in which the leaf reads as the scalar and every other node and every link as
    -- before, where the bytes of a leaf stand at their address in the blob and can be exchanged there,
    -- and the scalar can be stored.
    pub put_scalar_into_packed-Patches :
        (entity : Skey) (rel : SPath) (scalar : Scalar) (w : World W) (root : NodeKind)
        (blob : List ℕ) (t : ArchTree) (k : Skey) (old : List ℕ)
        → Lies
        → read_node W.reads w.store entity ≡ ok (some (Node.packed root blob))
        → rkyv.access blob ≡ some t
        → IsSorted t
        → LeadsTo t rel k
        → lookup t (into_bytes k) ≡ some (ArchNode.leaf old)
        → length (encode [] scalar) ≡ length old
        → IsLeafStorable scalar
        → Patches entity rel scalar w root t k
    unfolding put_scalar_into_packed reading ◌>>=◌
    put_scalar_into_packed-Patches entity rel scalar w root blob t k old lies n access sorted r e
          fits s =
        let (a, b, whole, at_ptr, gives) = lies blob t (into_bytes k) old access e in
        let spot =
          span-leaf blob t rel k old (encode [] scalar) (length a) sorted access r e fits at_ptr in
        let copied : copy_from_slice blob (length a) (length old) (encode [] scalar)
            ≡ ok (a ++ encode [] scalar ++ b) =
          subst
            (λ x.
              copy_from_slice x (length a) (length old) (encode [] scalar)
              ≡ ok (a ++ encode [] scalar ++ b))
            (sym whole) (copy_middle a old b (encode [] scalar) fits) in
        record {
          patched = a ++ encode [] scalar ++ b;
          archive = replaced t (into_bytes k) (ArchNode.leaf (encode [] scalar));
          puts = rw (n, spot, copied) refl;
          accessed = gives (encode [] scalar) fits;
          overwritten = replaced-Overwritten t k old scalar sorted e s;
        }
