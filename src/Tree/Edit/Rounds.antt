-- ===== src/Tree/Edit/Rounds.antt =====
-- The recursion of `ensure_container_rel` of crates/stratodb/src/tree.rs ends.
use stratodb.Base.{
  ℕ, zero, suc, ◌≤◌, ◌≡◌, refl, sym, ap, ◌∙◌, List, [], ◌∷◌, Bool, none, some, some-inj,
  Option-cases, inl, inr, length, arith,
}
use stratodb.Error.{Segment, SPath}
use stratodb.Crates.{Crates}
use stratodb.Key.{Skey}
use stratodb.Spath.{split_last, split_last_segment, len}
use stratodb.Engine.Backend.{WriteNodes}
use stratodb.Tree.Write.Monad.{Write, crash}
use stratodb.Tree.Write.{is_index}
use stratodb.Tree.Edit.{ensure_at, ensure_rounds, ensure_container_rel}

some_not_none : {A : Type 0} {a : A} → some a ≡ none → ⊥
some_not_none e = cc

split_last_segment_full :
    (s : Segment) (rest : List Segment) → split_last_segment (s ∷ rest) ≡ none → ⊥
unfolding split_last_segment
split_last_segment_full s rest e = elim (Option-cases (split_last_segment rest)) [
  | inl ended ↦ some_not_none (rw ended at e)
  | inr ((head, l), more) ↦ some_not_none (rw more at e)
]

length-split_last_segment :
    (segs head : List Segment) (last : Segment)
    → split_last_segment segs ≡ some (head, last)
    → length segs ≡ suc (length head)
unfolding split_last_segment
length-split_last_segment [] head last e = cc
length-split_last_segment (s ∷ []) head last e =
    let first : [] ≡ head = ap (λ p. p.0) (some-inj e) in rw (← first) refl
length-split_last_segment (s ∷ (r ∷ rest)) head last e =
    elim (Option-cases (split_last_segment (r ∷ rest))) [
      | inl ended ↦ absurd (split_last_segment_full r rest ended)
      | inr ((h, l), more) ↦
          let first : s ∷ h ≡ head = ap (λ p. p.0) (some-inj (rw more at e)) in
          rw (← first) (ap suc (length-split_last_segment (r ∷ rest) h l more))
    ]

len-split_last :
    (rel p : SPath) (last : Segment) → split_last rel ≡ some (p, last) → len rel ≡ suc (len p)
unfolding split_last len
len-split_last rel p last e = elim (Option-cases (split_last_segment rel.segments)) [
  | inl ended ↦ absurd (some_not_none (sym (rw (ended, split_last) at e)))
  | inr ((h, l), more) ↦
      let first : record { segments = h } ≡ p =
        ap (λ (x : SPath × Segment). x.0) (some-inj (rw (more, split_last) at e)) in
      rw (← first) (length-split_last_segment rel.segments h l more)
]

module _ ⦃crates : Crates⦄ (W : WriteNodes) (fuel : ℕ) where
  -- What `ensure_at` does of two recursive calls that agree on the parent is the same.
  ensure_at_same :
      (f g : SPath → Bool → Write W Skey) (root : Skey) (rel : SPath) (b : Bool)
      → ((p : SPath) (last : Segment) (c : Bool) → split_last rel ≡ some (p, last) → f p c ≡ g p c)
      → ensure_at W fuel f root rel b ≡ ensure_at W fuel g root rel b
  unfolding ensure_at
  ensure_at_same f g root rel b same = elim (Option-cases (split_last rel)) [
    | inl ended ↦ rw (ended, ensure_at) refl
    | inr ((p, last), more) ↦ rw (more, ensure_at, same p last (is_index last) more) refl
  ]

  -- The call on the parent in a round, behind which there are `n` rounds.
  abbrev parent_rounds : ℕ → Skey → SPath → Bool → Write W Skey
  parent_rounds zero root p b = crash W
  parent_rounds (suc n) root p b = ensure_rounds W fuel n root p b

  ensure_rounds-ensure_at :
      (n : ℕ) (root : Skey) (rel : SPath) (b : Bool)
      → ensure_rounds W fuel n root rel b ≡ ensure_at W fuel (parent_rounds n root) root rel b
  unfolding ensure_rounds
  ensure_rounds-ensure_at zero root rel b = refl
  ensure_rounds-ensure_at (suc n) root rel b = refl

  rounds_same :
      (n m : ℕ) (root : Skey) (rel : SPath) (b : Bool)
      → len rel ≤ n
      → len rel ≤ m
      → ensure_rounds W fuel n root rel b ≡ ensure_rounds W fuel m root rel b
  unfolding ensure_rounds
  rounds_same zero m root rel b hn hm = rw (ensure_rounds-ensure_at m root rel b) (
      ensure_at_same (parent_rounds zero root) (parent_rounds m root) root rel b
        (λ p last c e. absurd (omega (arith, len-split_last rel p last e, hn))))
  rounds_same (suc n) zero root rel b hn hm =
      ensure_at_same (parent_rounds (suc n) root) (parent_rounds zero root) root rel b
        (λ p last c e. absurd (omega (arith, len-split_last rel p last e, hm)))
  rounds_same (suc n) (suc m) root rel b hn hm =
      ensure_at_same (parent_rounds (suc n) root) (parent_rounds (suc m) root) root rel b
        (λ p last c e.
          rounds_same n m root p c (omega (arith, len-split_last rel p last e, hn))
            (omega (arith, len-split_last rel p last e, hm)))

  -- `ensure_container_rel` satisfies its recursive equation for each path: it calls itself on the
  -- parent, and its rounds never end before the path does.
  pub ensure_container_rel-ensure_at :
      (root : Skey) (rel : SPath) (b : Bool)
      → ensure_container_rel W fuel root rel b
        ≡ ensure_at W fuel (ensure_container_rel W fuel root) root rel b
  unfolding ensure_container_rel
  ensure_container_rel-ensure_at root rel b =
      rounds_same (len rel) (suc (len rel)) root rel b (omega arith) (omega arith)
      ∙ ensure_rounds-ensure_at (suc (len rel)) root rel b
      ∙ ensure_at_same (ensure_rounds W fuel (len rel) root) (ensure_container_rel W fuel root) root
          rel b
          (λ p last c e.
            rounds_same (len rel) (len p) root p c (omega (arith, len-split_last rel p last e))
              (omega arith))
