-- ===== src/Tree/Refines/Walk.antt =====
-- `walk` of crates/stratodb/src/tree.rs, in a store without packed entities.
use stratodb.Base.{◌≡◌, refl, inl, inr, List, [], ◌∷◌, Option, none, some, Option-cases, get_elem?}
use stratodb.Error.{Segment, name, index, ok}
use stratodb.Crates.{Crates}
use stratodb.Key.{Skey}
use stratodb.Engine.Backend.{ReadNodes}
use stratodb.Value.{Value, map_get, get, at, step, subtree}
use stratodb.Tree.{read_node, child_key, walk}
use stratodb.Tree.Holds.{Shape, HoldsAll-at, HoldsEntries-get, Next}

abbrev pub NonePacked : ⦃crates : Crates⦄ → Skey → Value → Type 0
NonePacked k v = ⊥

module _ ⦃crates : Crates⦄ (R : ReadNodes) (s : R.Store) where
  -- The key of a child, and the document there.
  Shape-child :
      (k : Skey) (v : Value) (seg : Segment)
      → Shape R s NonePacked k v
      → (next : Option Skey) × (child_key R s k seg ≡ ok next)
        × Next R s NonePacked next (step v seg)
  unfolding child_key step get at read_node
  Shape-child k (Value.leaf x) (name n) (h, alone) = (none, alone n, tt)
  Shape-child k (Value.leaf x) (index i) (h, alone) = (none, rw h refl, tt)
  Shape-child k (Value.list vs) (name n) (items, h, alone, hs) = (none, alone n, tt)
  Shape-child k (Value.list vs) (index i) (items, h, alone, hs) =
      (get_elem? items i, rw h refl, HoldsAll-at R s NonePacked items vs i hs)
  Shape-child k (Value.node m) (name n) (h, hs, absent) = elim (Option-cases (map_get m n)) [
    | inl e ↦ (none, absent n e, rw e tt)
    | inr (w, e) ↦
        let (c, link, below) = HoldsEntries-get R s NonePacked k m n w hs e in
        (some c, link, rw e below)
  ]
  Shape-child k (Value.node m) (index i) (h, hs, absent) = (none, rw h refl, tt)

  -- Where `walk` ends.
  abbrev pub Walked : Option Skey → Option Value → Type 0
  Walked none none = Unit
  Walked (some c) (some w) = Shape R s NonePacked c w
  Walked _ _ = ⊥

  -- `walk` finds what the document has, and fails nowhere.
  abbrev pub Walks : Skey → Value → List Segment → Type 0
  Walks k v segs =
      (found : Option Skey) × (walk R s k segs ≡ ok found) × Walked found (subtree v segs)

  step-Walks :
      (seg : Segment) (rest : List Segment) (k : Skey) (v : Value)
      → ((c : Skey) (w : Value) → Shape R s NonePacked c w → Walks c w rest)
      → (next : Option Skey) → child_key R s k seg ≡ ok next
      → (below : Option Value) → step v seg ≡ below
      → Next R s NonePacked next below
      → Walks k v (seg ∷ rest)
  unfolding walk subtree
  step-Walks seg rest k v go none e none d h = (none, rw e refl, rw (d, Walked) tt)
  step-Walks seg rest k v go (some c) e (some w) d (inr h) =
      let (found, e', h') = go c w h in (found, rw e e', rw (d, Walked, subtree) h')
  step-Walks seg rest k v go (some c) e (some w) d (inl h) = absurd h
  step-Walks seg rest k v go none e (some w) d h = absurd h
  step-Walks seg rest k v go (some c) e none d h = absurd h

  pub walk-subtree :
      (segs : List Segment) (k : Skey) (v : Value) → Shape R s NonePacked k v → Walks k v segs
  unfolding walk subtree
  walk-subtree [] k v h = (some k, refl, h)
  walk-subtree (seg ∷ rest) k v h =
      let (next, e, below) = Shape-child k v seg h in
      step-Walks seg rest k v (λ c w. walk-subtree rest c w) next e (step v seg) refl below
