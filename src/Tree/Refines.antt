-- ===== src/Tree/Refines.antt =====
-- `locate` of crates/stratodb/src/tree.rs walks the document that the nodes of a store make up.
pub mod Walk
pub mod Read
pub mod Stores
pub mod Entity
pub mod Hidden
use stratodb.Base.{
  ℕ, ◌≡◌, refl, sym, ap, ◌∙◌, ◌⊎◌, inl, inr, List, [], ◌∷◌, Option, none, some, Option-cases, Text,
  get_elem?,
}
use stratodb.Error.{Segment, SPath, name, index, SdbResult, ok, err, panic, ◌>>=◌}
use stratodb.Crates.{Crates}
use stratodb.Key.{Skey}
use stratodb.Engine.Backend.{ReadNodes, NodeStep, step_of}
use stratodb.Value.{Value, Values, Entries, map_get, vec_get, get, at, step, subtree}
use stratodb.Tree.{Located, missing, plain, packed, hop, locate_from}
use stratodb.Tree.Holds.{Classifies, NoLinks, Shape, Holds, HoldsAll-at, HoldsEntries-get, Next}

module _ ⦃crates : Crates⦄ (R : ReadNodes) (classes : Classifies R) (s : R.Store)
    (Packed : Skey → Value → Type 0) where
  -- A packed node is classified as such, whatever document it holds.
  abbrev pub ArePacked : Type 0
  ArePacked = (k : Skey) (v : Value) → Packed k v → R.node_step s k ≡ ok (some NodeStep.packed)

  abbrev NotPacked : NodeStep → Type 0
  NotPacked NodeStep.packed = ⊥
  NotPacked _ = Unit

  -- A node that is not packed, and its next hop.
  record Hops (k : Skey) (v : Value) (seg : Segment) : Type 0 where
    class : NodeStep
    steps : R.node_step s k ≡ ok (some class)
    not_packed : NotPacked class
    next : Option Skey
    found : hop R s k class seg ≡ ok next
    holds : Next R s Packed next (step v seg)

  Shape-Hops : (k : Skey) (v : Value) (seg : Segment) → Shape R s Packed k v → Hops k v seg
  unfolding hop step get at step_of
  Shape-Hops k (Value.leaf x) (name n) (h, alone) = record {
    class = NodeStep.plain;
    steps = classes.same s k ∙ rw h refl;
    not_packed = tt;
    next = none;
    found = alone n;
    holds = tt;
  }
  Shape-Hops k (Value.leaf x) (index i) (h, alone) = record {
    class = NodeStep.plain;
    steps = classes.same s k ∙ rw h refl;
    not_packed = tt;
    next = none;
    found = refl;
    holds = tt;
  }
  Shape-Hops k (Value.list vs) (name n) (items, h, alone, hs) = record {
    class = NodeStep.list items;
    steps = classes.same s k ∙ rw h refl;
    not_packed = tt;
    next = none;
    found = alone n;
    holds = tt;
  }
  Shape-Hops k (Value.list vs) (index i) (items, h, alone, hs) = record {
    class = NodeStep.list items;
    steps = classes.same s k ∙ rw h refl;
    not_packed = tt;
    next = get_elem? items i;
    found = refl;
    holds = HoldsAll-at R s Packed items vs i hs;
  }
  Shape-Hops k (Value.node m) (name n) (h, hs, absent) = elim (Option-cases (map_get m n)) [
    | inl e ↦ record {
      class = NodeStep.plain;
      steps = classes.same s k ∙ rw h refl;
      not_packed = tt;
      next = none;
      found = absent n e;
      holds = rw e tt;
    }
    | inr (w, e) ↦
        let (c, link, below) = HoldsEntries-get R s Packed k m n w hs e in
        record {
          class = NodeStep.plain;
          steps = classes.same s k ∙ rw h refl;
          not_packed = tt;
          next = some c;
          found = link;
          holds = rw e below;
        }
  ]
  Shape-Hops k (Value.node m) (index i) (h, hs, absent) = record {
    class = NodeStep.plain;
    steps = classes.same s k ∙ rw h refl;
    not_packed = tt;
    next = none;
    found = refl;
    holds = tt;
  }

  -- Where a walk lands, by the document that it starts in.
  abbrev pub Landed : SdbResult Located → Value → List Segment → Type 0
  Landed (ok missing) v segs = subtree v segs ≡ none
  Landed (ok (plain c)) v segs = (w : Value) × (subtree v segs ≡ some w) × Shape R s Packed c w
  Landed (ok (packed e rel)) v segs =
      (w : Value) × (subtree v segs ≡ subtree w rel.segments) × Packed e w
  Landed (err e) v segs = ⊥
  Landed panic v segs = ⊥

  -- The class of a node that is not packed.
  Shape-class :
      (k : Skey) (v : Value)
      → Shape R s Packed k v
      → (class : NodeStep) × (R.node_step s k ≡ ok (some class)) × NotPacked class
  unfolding step_of
  Shape-class k (Value.leaf x) (h, _) = (NodeStep.plain, classes.same s k ∙ rw h refl, tt)
  Shape-class k (Value.list vs) (items, h, _, _) =
      (NodeStep.list items, classes.same s k ∙ rw h refl, tt)
  Shape-class k (Value.node m) (h, _, _) = (NodeStep.plain, classes.same s k ∙ rw h refl, tt)

  -- The end of a walk at a node that is not packed.
  stop-Landed :
      (k : Skey) (v : Value) (class : NodeStep)
      → NotPacked class
      → R.node_step s k ≡ ok (some class)
      → Shape R s Packed k v
      → Landed (locate_from R s k []) v []
  unfolding locate_from subtree
  stop-Landed k v NodeStep.packed np e h = absurd np
  stop-Landed k v NodeStep.plain np e h = rw e (v, refl, h)
  stop-Landed k v (NodeStep.list items) np e h = rw e (v, refl, h)

  Landed-same :
      (found : SdbResult Located) (v w : Value) (segs rest : List Segment)
      → subtree v segs ≡ subtree w rest
      → Landed found w rest
      → Landed found v segs
  Landed-same (ok missing) v w segs rest e h = e ∙ h
  Landed-same (ok (plain c)) v w segs rest e (u, h, shape) = (u, e ∙ h, shape)
  Landed-same (ok (packed c rel)) v w segs rest e (u, h, p) = (u, e ∙ h, p)
  Landed-same (err _) v w segs rest e h = absurd h
  Landed-same panic v w segs rest e h = absurd h

  -- The walk behind a hop, where `go` walks on.
  step-Landed :
      (seg : Segment) (rest : List Segment) (k : Skey) (v : Value)
      → ((c : Skey) (w : Value) → Holds R s Packed c w → Landed (locate_from R s c rest) w rest)
      → (class : NodeStep) → NotPacked class
      → R.node_step s k ≡ ok (some class)
      → (next : Option Skey) → hop R s k class seg ≡ ok next
      → (below : Option Value) → step v seg ≡ below
      → Next R s Packed next below
      → Landed (locate_from R s k (seg ∷ rest)) v (seg ∷ rest)
  unfolding locate_from subtree
  step-Landed seg rest k v go NodeStep.packed np e next f below d h = absurd np
  step-Landed seg rest k v go NodeStep.plain np e none f none d h =
      let gone : subtree v (seg ∷ rest) ≡ none = rw (d, subtree) refl in rw (e, f) gone
  step-Landed seg rest k v go NodeStep.plain np e (some c) f (some w) d h =
      let same : subtree v (seg ∷ rest) ≡ subtree w rest = rw (d, subtree) refl in
      rw (e, f) (Landed-same (locate_from R s c rest) v w (seg ∷ rest) rest same (go c w h))
  step-Landed seg rest k v go (NodeStep.list items) np e none f none d h =
      let gone : subtree v (seg ∷ rest) ≡ none = rw (d, subtree) refl in rw (e, f) gone
  step-Landed seg rest k v go (NodeStep.list items) np e (some c) f (some w) d h =
      let same : subtree v (seg ∷ rest) ≡ subtree w rest = rw (d, subtree) refl in
      rw (e, f) (Landed-same (locate_from R s c rest) v w (seg ∷ rest) rest same (go c w h))
  step-Landed seg rest k v go class np e none f (some w) d h = absurd h
  step-Landed seg rest k v go class np e (some c) f none d h = absurd h

  -- Where the nodes under `k` make up the document `v`, the walk finds nothing exactly where `v` has
  -- nothing, a plain node where `v` goes on in plain nodes, and the packed node with the segments
  -- that are left where the document ends in one.
  pub locate_from-subtree :
      (segs : List Segment) (k : Skey) (v : Value)
      → ArePacked
      → Holds R s Packed k v
      → Landed (locate_from R s k segs) v segs
  unfolding locate_from subtree
  locate_from-subtree [] k v are (inl p) = rw (are k v p) (v, refl, p)
  locate_from-subtree (seg ∷ rest) k v are (inl p) = rw (are k v p) (v, refl, p)
  locate_from-subtree [] k v are (inr h) =
      let (class, e, np) = Shape-class k v h in stop-Landed k v class np e h
  locate_from-subtree (seg ∷ rest) k v are (inr h) =
      let hops = Shape-Hops k v seg h in
      step-Landed seg rest k v (λ c w. locate_from-subtree rest c w are) hops.class hops.not_packed
        hops.steps hops.next hops.found (step v seg) refl hops.holds
