-- ===== src/Tree/Holds.antt =====
-- When the nodes of a store make up a document.
use stratodb.Base.{
  ℕ, zero, suc, ◌≡◌, ◌⊎◌, inl, inr, List, [], ◌∷◌, Option, none, some, some-inj, Text, text_eq,
  text_eq_sound, get_elem?, Bool-cases,
}
use stratodb.Error.{ok, ◌>>=◌}
use stratodb.Crates.{Crates}
use stratodb.Key.{Skey}
use stratodb.Node.{Node}
use stratodb.Engine.TableKey.{data_key}
use stratodb.Engine.TableValue.{node}
use stratodb.Engine.Backend.{ReadNodes, step_of}
use stratodb.Value.{Value, Values, nil, cons, Entries, empty, entry, map_get, vec_get}

module _ ⦃crates : Crates⦄ where
  -- A store classifies a node as the default method does.
  pub record Classifies (R : ReadNodes) : Type 0 where
    pub same : (s : R.Store) (k : Skey) → R.node_step s k ≡ (R.fetch s (data_key k) >>= step_of)

  -- `Packed` says which documents are stored as one packed node.
  module _ (R : ReadNodes) (s : R.Store) (Packed : Skey → Value → Type 0) where
    abbrev pub NoLinks : Skey → Type 0
    NoLinks k = (n : Text) → R.child_link s k n ≡ ok none

    abbrev mutual
      pub Shape : Skey → Value → Type 0
      Shape k (Value.leaf x) = (R.fetch s (data_key k) ≡ ok (some (node (Node.leaf x)))) × NoLinks k
      Shape k (Value.list vs) =
          (items : List Skey) × (R.fetch s (data_key k) ≡ ok (some (node (Node.list items))))
          × NoLinks k
          × HoldsAll items vs
      Shape k (Value.node m) =
          (R.fetch s (data_key k) ≡ ok (some (node Node.object)))
          × HoldsEntries k m
          × ((n : Text) → map_get m n ≡ none → R.child_link s k n ≡ ok none)

      pub HoldsAll : List Skey → Values → Type 0
      HoldsAll [] nil = Unit
      HoldsAll (k ∷ ks) (cons v vs) = (Packed k v ⊎ Shape k v) × HoldsAll ks vs
      HoldsAll [] (cons v vs) = ⊥
      HoldsAll (k ∷ ks) nil = ⊥

      pub HoldsEntries : Skey → Entries → Type 0
      HoldsEntries k empty = Unit
      HoldsEntries k (entry n v m) =
          ((c : Skey) × (R.child_link s k n ≡ ok (some c)) × (Packed c v ⊎ Shape c v))
          × HoldsEntries k m

    abbrev pub Holds : Skey → Value → Type 0
    Holds k v = Packed k v ⊎ Shape k v

    -- The next hop, and the next document.
    abbrev pub Next : Option Skey → Option Value → Type 0
    Next none none = Unit
    Next (some c) (some w) = Holds c w
    Next _ _ = ⊥

    pub HoldsAll-at :
        (items : List Skey) (vs : Values) (i : ℕ)
        → HoldsAll items vs
        → Next (get_elem? items i) (vec_get vs i)
    unfolding vec_get
    HoldsAll-at [] nil i h = tt
    HoldsAll-at (k ∷ ks) (cons v vs) zero (h, hs) = h
    HoldsAll-at (k ∷ ks) (cons v vs) (suc i) (h, hs) = HoldsAll-at ks vs i hs
    HoldsAll-at [] (cons v vs) i h = absurd h
    HoldsAll-at (k ∷ ks) nil i h = absurd h

    pub HoldsEntries-get :
        (k : Skey) (m : Entries) (n : Text) (v : Value)
        → HoldsEntries k m
        → map_get m n ≡ some v
        → (c : Skey) × (R.child_link s k n ≡ ok (some c)) × Holds c v
    unfolding map_get
    HoldsEntries-get k empty n v h e = cc
    HoldsEntries-get k (entry n' w m) n v (h, hs) e = elim (Bool-cases (text_eq n n')) [
      | inl same ↦
          let found : some w ≡ some v = rw same at e in
          rw (text_eq_sound n n' same, ← some-inj found) h
      | inr other ↦ HoldsEntries-get k m n v hs (rw other at e)
    ]
