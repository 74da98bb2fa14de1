-- ===== src/Txn/Value/Loads.antt =====
-- `value_at` of crates/stratodb/src/txn/value.rs loads the document that the nodes of a store make up.
use stratodb.Base.{
  ℕ, zero, suc, ◌+◌, ◌<◌, ◌≡◌, refl, sym, ap, ◌∙◌, ◌⊎◌, inl, inr, max, List, [], ◌∷◌, ◌++◌, some,
  false, Text, lex, Ordering, arith,
}
use stratodb.Error.{SdbResult, ok, err, panic}
use stratodb.Crates.{Crates}
use stratodb.Key.{Skey, skey_eq, skey_eq_refl}
use stratodb.Key
use stratodb.Node.{Node, NodeKind}
use stratodb.Engine.TableKey.{TableKey, data_key, child, index}
use stratodb.Engine.TableValue.{TableValue, node, skey, nothing}
use stratodb.Engine.Backend.{ReadNodes}
use stratodb.Engine.Mem.{MemNodes, mem_reads}
use stratodb.Engine.Archived.{Rkyv, from_blob}
use stratodb.Value.{Value, Values, nil, cons, Entries, empty, entry, map_insert}
use stratodb.Tree.{read_node, object_children, collect_links, link_item}
use stratodb.Tree.Refines.Walk.{NonePacked}
use stratodb.Txn.Value.{value_items, value_links, value_of, value_at}

module _ ⦃crates : Crates⦄ where
  -- How deep a document is.
  abbrev mutual
    pub depth : Value → ℕ
    depth (Value.leaf x) = 0
    depth (Value.list vs) = suc (depth_all vs)
    depth (Value.node m) = suc (depth_entries m)

    pub depth_all : Values → ℕ
    depth_all nil = 0
    depth_all (cons v vs) = max (depth v) (depth_all vs)

    pub depth_entries : Entries → ℕ
    depth_entries empty = 0
    depth_entries (entry n v m) = max (depth v) (depth_entries m)

  -- The names of a map in their order.
  abbrev pub AreBehind : Text → Entries → Type 0
  AreBehind n empty = Unit
  AreBehind n (entry j v m) = (lex j n ≡ Ordering.gt) × AreBehind n m

  abbrev pub IsSorted : Entries → Type 0
  IsSorted empty = Unit
  IsSorted (entry n v m) = AreBehind n m × IsSorted m

  -- The scan ends, or goes on with the link of another parent or another kind of entry.
  abbrev pub EndsAt : Skey → List (SdbResult (TableKey × TableValue)) → Type 0
  EndsAt k [] = Unit
  EndsAt k (ok (child p n, v) ∷ items) = skey_eq p k ≡ false
  EndsAt k (ok (data_key j, v) ∷ items) = Unit
  EndsAt k (ok (index i cols e, v) ∷ items) = Unit
  EndsAt k (_ ∷ items) = ⊥

  abbrev pub link_entries : Skey → List (Text × Skey) → List (SdbResult (TableKey × TableValue))
  link_entries k [] = []
  link_entries k ((n, c) ∷ links) = ok (child k n, skey c) ∷ link_entries k links

  -- What the store has behind the first key of the links of an object.
  abbrev pub HasLinks : (R : ReadNodes) → R.Store → Skey → List (Text × Skey) → Type 0
  HasLinks R s k links =
      (rest : List (SdbResult (TableKey × TableValue))) × (R.scan_from s (child k [])
        ≡ ok (link_entries k links ++ rest))
      × EndsAt k rest

  -- The nodes of a store make up a document, where a scan gives the links of an object in the order of
  -- their names; `Packed` says which documents are stored as one packed node.
  module _ (R : ReadNodes) (s : R.Store) (Packed : Skey → Value → Type 0) where
    abbrev mutual
      pub Lists : Skey → Value → Type 0
      Lists k (Value.leaf x) = R.fetch s (data_key k) ≡ ok (some (node (Node.leaf x)))
      Lists k (Value.list vs) =
          (items : List Skey) × (R.fetch s (data_key k) ≡ ok (some (node (Node.list items))))
          × ListsAll items vs
      Lists k (Value.node m) =
          (links : List (Text × Skey)) × (R.fetch s (data_key k) ≡ ok (some (node Node.object)))
          × HasLinks R s k links
          × IsSorted m
          × ListsEntries links m

      pub ListsAll : List Skey → Values → Type 0
      ListsAll [] nil = Unit
      ListsAll (k ∷ ks) (cons v vs) = (Packed k v ⊎ Lists k v) × ListsAll ks vs
      ListsAll [] (cons v vs) = ⊥
      ListsAll (k ∷ ks) nil = ⊥

      pub ListsEntries : List (Text × Skey) → Entries → Type 0
      ListsEntries [] empty = Unit
      ListsEntries ((n, k) ∷ links) (entry j v m) =
          (n ≡ j) × (Packed k v ⊎ Lists k v) × ListsEntries links m
      ListsEntries [] (entry j v m) = ⊥
      ListsEntries (link ∷ links) empty = ⊥

  -- A scan that breaks off where the links of the object end.
  collect_links-link_entries :
      (R : ReadNodes) (k : Skey) (links : List (Text × Skey))
      (rest : List (SdbResult (TableKey × TableValue)))
      → EndsAt k rest
      → collect_links R k (link_entries k links ++ rest) ≡ ok links
  unfolding collect_links link_item
  collect_links-link_entries R k [] [] h = refl
  collect_links-link_entries R k [] (ok (child p n, skey c) ∷ rest) h = rw h refl
  collect_links-link_entries R k [] (ok (child p n, node m) ∷ rest) h = rw h refl
  collect_links-link_entries R k [] (ok (child p n, nothing) ∷ rest) h = rw h refl
  collect_links-link_entries R k [] (ok (data_key j, v) ∷ rest) h = refl
  collect_links-link_entries R k [] (ok (index i cols e, v) ∷ rest) h = refl
  collect_links-link_entries R k [] (err x ∷ rest) h = absurd h
  collect_links-link_entries R k [] (panic ∷ rest) h = absurd h
  collect_links-link_entries R k ((n, c) ∷ links) rest h =
      rw (skey_eq_refl k, collect_links-link_entries R k links rest h) refl

  object_children-HasLinks :
      (R : ReadNodes) (s : R.Store) (k : Skey) (links : List (Text × Skey))
      → HasLinks R s k links
      → object_children R s k ≡ ok links
  unfolding object_children
  object_children-HasLinks R s k links (rest, scan, ends) =
      rw scan (collect_links-link_entries R k links rest ends)

  -- One map behind another.
  abbrev join : Entries → Entries → Entries
  join empty m = m
  join (entry n v acc) m = entry n v (join acc m)

  join-empty : (m : Entries) → join m empty ≡ m
  join-empty empty = refl
  join-empty (entry n v m) = ap (entry n v) (join-empty m)

  join-join :
      (acc : Entries) (n : Text) (v : Value) (m : Entries)
      → join (join acc (entry n v empty)) m ≡ join acc (entry n v m)
  join-join empty n v m = refl
  join-join (entry j w acc) n v m = ap (entry j w) (join-join acc n v m)

  -- Every name of the one is behind every name of the other.
  abbrev AreAfter : Entries → Entries → Type 0
  AreAfter empty m = Unit
  AreAfter (entry n v acc) m = AreBehind n m × AreAfter acc m

  AreAfter-tail :
      (acc : Entries) (n : Text) (v : Value) (m : Entries)
      → AreAfter acc (entry n v m)
      → AreBehind n m
      → AreAfter (join acc (entry n v empty)) m
  AreAfter-tail empty n v m h behind = (behind, tt)
  AreAfter-tail (entry j w acc) n v m (h, hs) behind = (h.1, AreAfter-tail acc n v m hs behind)

  map_insert-last :
      (acc : Entries) (n : Text) (v : Value) (m : Entries)
      → AreAfter acc (entry n v m)
      → map_insert acc n v ≡ join acc (entry n v empty)
  unfolding map_insert
  map_insert-last empty n v m h = refl
  map_insert-last (entry j w acc) n v m (h, hs) =
      rw (h.0, map_insert) (ap (entry j w) (map_insert-last acc n v m hs))

  module _ (R : ReadNodes) (s : R.Store) (Packed : Skey → Value → Type 0)
      (read : Skey → SdbResult Value) (bound : ℕ)
      (reads : (k : Skey) (v : Value)
        → Packed k v ⊎ Lists R s Packed k v
        → depth v < bound
        → read k ≡ ok v) where
    value_items-ListsAll :
        (items : List Skey) (vs : Values)
        → ListsAll R s Packed items vs
        → depth_all vs < bound
        → value_items read items ≡ ok vs
    unfolding value_items
    value_items-ListsAll [] nil h d = refl
    value_items-ListsAll (k ∷ ks) (cons v vs) (h, hs) d =
        rw (reads k v h (ground arith), value_items-ListsAll ks vs hs (ground arith)) refl
    value_items-ListsAll [] (cons v vs) h d = absurd h
    value_items-ListsAll (k ∷ ks) nil h d = absurd h

    value_links-ListsEntries :
        (acc : Entries) (links : List (Text × Skey)) (m : Entries)
        → ListsEntries R s Packed links m
        → IsSorted m
        → AreAfter acc m
        → depth_entries m < bound
        → value_links read acc links ≡ ok (join acc m)
    unfolding value_links
    value_links-ListsEntries acc [] empty h sorted after d = ap ok (sym (join-empty acc))
    value_links-ListsEntries acc ((n, k) ∷ links) (entry j v m) (same, h, hs) (behind, sorted) after
          d =
        rw (reads k v h (ground arith), same, map_insert-last acc j v m after)
          (value_links-ListsEntries (join acc (entry j v empty)) links m hs sorted
              (AreAfter-tail acc j v m after behind) (ground arith)
            ∙ ap ok (join-join acc j v m))
    value_links-ListsEntries acc [] (entry j v m) h sorted after d = absurd h
    value_links-ListsEntries acc (link ∷ links) empty h sorted after d = absurd h

  module _ ⦃rkyv : Rkyv⦄ where
    -- One round, where `below` is what the rounds that are left load.
    round-Lists :
        (R : ReadNodes) (s : R.Store) (Packed : Skey → Value → Type 0) (rounds bound : ℕ)
        → ((k : Skey) (v : Value)
            → Packed k v ⊎ Lists R s Packed k v
            → depth v < bound
            → value_at rounds R s k ≡ ok v)
        → (k : Skey) (v : Value) → Lists R s Packed k v
        → depth v < suc bound
        → value_at (suc rounds) R s k ≡ ok v
    unfolding value_at value_of read_node
    round-Lists R s Packed rounds bound below k (Value.leaf x) e d = rw e refl
    round-Lists R s Packed rounds bound below k (Value.list vs) (items, e, h) d =
        rw
          (
            e,
            value_items-ListsAll R s Packed (λ c. value_at rounds R s c) bound below items vs h
                (omega arith),
          )
          refl
    round-Lists R s Packed rounds bound below k (Value.node m) (links, e, scan, sorted, h) d =
        rw
          (
            e,
            object_children-HasLinks R s k links scan,
            value_links-ListsEntries R s Packed (λ c. value_at rounds R s c) bound below empty links
                m h sorted tt (omega arith),
          )
          refl

    -- In a store without packed entities.
    plain-Lists :
        (R : ReadNodes) (s : R.Store) (rounds : ℕ) (k : Skey) (v : Value)
        → NonePacked k v ⊎ Lists R s NonePacked k v
        → depth v < rounds
        → value_at rounds R s k ≡ ok v
    plain-Lists R s rounds k v (inl none_there) d = absurd none_there
    plain-Lists R s zero k v (inr h) d = absurd (omega arith)
    plain-Lists R s (suc rounds) k v (inr h) d =
        round-Lists R s NonePacked rounds rounds (λ c w. plain-Lists R s rounds c w) k v h d

    abbrev pub ListsIn : MemNodes → Skey → Value → Type 0
    unfolding mem_reads
    ListsIn mem k v = Lists mem_reads mem NonePacked k v

    module _ (R : ReadNodes) (s : R.Store) where
      -- A packed entity with a blob of the document.
      pub record PacksAs (k : Skey) (v : Value) : Type 0 where
        pub root : NodeKind
        pub blob : List ℕ
        pub mem : MemNodes
        pub is_packed : R.fetch s (data_key k) ≡ ok (some (node (Node.packed root blob)))
        pub decodes : from_blob blob ≡ ok mem
        pub lists : ListsIn mem Key.root v

      packed-Lists :
          (rounds : ℕ) (k : Skey) (v : Value)
          → PacksAs k v
          → depth v < rounds
          → value_at (suc rounds) R s k ≡ ok v
      unfolding value_at value_of read_node ListsIn mem_reads
      packed-Lists rounds k v p d =
          rw (p.is_packed, p.decodes)
            (plain-Lists mem_reads p.mem rounds Key.root v (inr p.lists) d)

      -- Where the nodes of a store, plain or packed, make up a document whose maps are in the order of
      -- their names, `value_at` loads the document, and two rounds more than it is deep are enough.
      pub value_at-Lists :
          (rounds : ℕ) (k : Skey) (v : Value)
          → PacksAs k v ⊎ Lists R s PacksAs k v
          → depth v + 1 < rounds
          → value_at rounds R s k ≡ ok v
      value_at-Lists zero k v h d = absurd (omega arith)
      value_at-Lists (suc zero) k v h d = absurd (omega arith)
      value_at-Lists (suc rounds) k v (inl p) d = packed-Lists rounds k v p (omega arith)
      value_at-Lists (suc (suc rounds)) k v (inr h) d =
          round-Lists R s PacksAs (suc rounds) rounds
            (λ c w held less. value_at-Lists (suc rounds) c w held (omega arith)) k v h
            (omega arith)
