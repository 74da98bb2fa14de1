-- ===== src/Tree/Refines/Hidden.antt =====
-- `locate` of crates/stratodb/src/tree.rs never follows a link out of a packed entity.
use stratodb.Base.{◌≡◌, refl, ◌⊎◌, inl, inr, List, [], ◌∷◌, Option, none, some, Text}
use stratodb.Error.{Segment, name, index, SdbResult, ok, err, panic, ◌>>=◌}
use stratodb.Crates.{Crates}
use stratodb.Key.{Skey}
use stratodb.Engine.Backend.{ReadNodes, NodeStep}
use stratodb.Tree.{Located, missing, hop, locate_from}

bind_same :
    {A B : Type 0} (m : SdbResult A) (f g : A → SdbResult B)
    → ((a : A) → f a ≡ g a)
    → (m >>= f) ≡ (m >>= g)
bind_same (ok a) f g same = same a
bind_same (err e) f g same = refl
bind_same panic f g same = refl

module _ ⦃crates : Crates⦄ (R : ReadNodes) where
  -- The two stores differ in the links out of the node `p` only.
  pub record LinksDiffer (s t : R.Store) (p : Skey) : Type 0 where
    pub steps : (k : Skey) → R.node_step t k ≡ R.node_step s k
    pub links : (k : Skey) → (k ≡ p) ⊎ ((n : Text) → R.child_link t k n ≡ R.child_link s k n)

  module _ (s t : R.Store) (p : Skey) (differ : LinksDiffer s t p)
      (is_packed : R.node_step s p ≡ ok (some NodeStep.packed)) where
    hop_same :
        (k : Skey) (class : NodeStep) (seg : Segment)
        → ((n : Text) → R.child_link t k n ≡ R.child_link s k n)
        → hop R t k class seg ≡ hop R s k class seg
    unfolding hop
    hop_same k class (name n) same = same n
    hop_same k NodeStep.packed (index i) same = refl
    hop_same k NodeStep.plain (index i) same = refl
    hop_same k (NodeStep.list items) (index i) same = refl

    other_than_packed :
        (a : NodeStep) → (NodeStep.packed ≡ a → ⊥) → ok (some NodeStep.packed) ≡ ok (some a) → ⊥
    other_than_packed a differs e = differs cc

    -- The links out of a packed entity change nothing for `locate_from`: it ends in two stores
    -- that differ in those only at the same place.
    pub locate_from-LinksDiffer :
        (segs : List Segment) (k : Skey) → locate_from R t k segs ≡ locate_from R s k segs
    unfolding locate_from
    locate_from-LinksDiffer [] k = rw (differ.steps k) refl
    locate_from-LinksDiffer (seg ∷ rest) k =
        at_node (R.node_step s k) refl (λ c. locate_from-LinksDiffer rest c)
      where
        by_next :
            ((c : Skey) → locate_from R t c rest ≡ locate_from R s c rest)
            → (next : Option Skey)
            → elim next as (λ _. SdbResult Located) [
              | none ↦ ok missing
              | some c ↦ locate_from R t c rest
            ]
              ≡ elim next as (λ _. SdbResult Located) [
                | none ↦ ok missing
                | some c ↦ locate_from R s c rest
              ]
        by_next go none = refl
        by_next go (some c) = go c

        below :
            (class : NodeStep)
            → ((c : Skey) → locate_from R t c rest ≡ locate_from R s c rest)
            → ((n : Text) → R.child_link t k n ≡ R.child_link s k n)
            → (hop R t k class seg >>= λ next. elim next as (λ _. SdbResult Located) [
              | none ↦ ok missing
              | some c ↦ locate_from R t c rest
            ])
              ≡ (hop R s k class seg >>= λ next. elim next as (λ _. SdbResult Located) [
                | none ↦ ok missing
                | some c ↦ locate_from R s c rest
              ])
        below class go same =
            rw (hop_same k class seg same) (bind_same (hop R s k class seg) _ _ (by_next go))

        at_node :
            (step : SdbResult (Option NodeStep))
            → R.node_step s k ≡ step
            → ((c : Skey) → locate_from R t c rest ≡ locate_from R s c rest)
            → locate_from R t k (seg ∷ rest) ≡ locate_from R s k (seg ∷ rest)
        at_node (err x) e go = rw (differ.steps k, e) refl
        at_node panic e go = rw (differ.steps k, e) refl
        at_node (ok none) e go = rw (differ.steps k, e) refl
        at_node (ok (some NodeStep.packed)) e go = rw (differ.steps k, e) refl
        at_node (ok (some NodeStep.plain)) e go = elim (differ.links k) [
          | inl is_p ↦
              absurd (other_than_packed NodeStep.plain (λ q. cc) (rw (is_p, is_packed) at e))
          | inr same ↦ rw (differ.steps k, e) (below NodeStep.plain go same)
        ]
        at_node (ok (some (NodeStep.list items))) e go = elim (differ.links k) [
          | inl is_p ↦
              absurd (other_than_packed (NodeStep.list items) (λ q. cc) (rw (is_p, is_packed) at e))
          | inr same ↦ rw (differ.steps k, e) (below (NodeStep.list items) go same)
        ]
