-- ===== src/Index/Pattern/Matches.antt =====
-- Paths that match a pattern and paths on one line, and what the loop over the children of a node
-- finds (crates/stratodb/src/index/pattern.rs).
use mathlib.Core.List.{Memᴰ}
use mathlib.Core.List.Memᴰ.{
  head, tail, append_left, append_right, append_cases, cases_cons, not-nil,
}
use stratodb.Base.{
  ◌≡◌, refl, ap, inl, inr, List, [], ◌∷◌, Bool, true, false, ◌&&◌, text_eq_sound, text_eq_refl,
  arith,
}
use stratodb.Error.{Segment, name, index, SdbResult, ok, err, panic, ◌>>=◌}
use stratodb.Crates.{Crates}
use stratodb.Key.{Skey}
use stratodb.Index.Pattern.{PatternSeg, seg_eq, seg_matches, walk_each}

pub seg_eq_sound : (a b : Segment) → seg_eq a b ≡ true → a ≡ b
unfolding seg_eq
seg_eq_sound (name a) (name b) h = ap name (text_eq_sound a b h)
seg_eq_sound (index i) (index j) h = ap index (ground arith)
seg_eq_sound (name a) (index j) h = cc
seg_eq_sound (index i) (name b) h = cc

pub seg_eq_refl : (a : Segment) → seg_eq a a ≡ true
unfolding seg_eq
seg_eq_refl (name a) = text_eq_refl a
seg_eq_refl (index i) = ground arith

pub ok-inj : {A : Type 0} {a b : A} → ok a ≡ ok b → a ≡ b
ok-inj e = cc

pub bind_inv :
    {A B : Type 0} (m : SdbResult A) (f : A → SdbResult B) (b : B)
    → (m >>= f) ≡ ok b
    → (a : A) × (m ≡ ok a) × (f a ≡ ok b)
bind_inv (ok a) f b e = (a, refl, e)
bind_inv (err x) f b e = cc
bind_inv panic f b e = cc

-- A path that matches a pattern, segment by segment.
unfoldable pub matches : List PatternSeg → List Segment → Bool
unfolding seg_matches
matches [] [] = true
matches (pat ∷ segs) (seg ∷ path) = seg_matches pat seg && matches segs path
matches _ _ = false

-- Two paths of which one leads on from the other.
unfoldable pub on_line : List Segment → List Segment → Bool
unfolding seg_eq
on_line (seg ∷ path) (taken ∷ scope) = seg_eq taken seg && on_line path scope
on_line _ _ = true

pub on_line_nil : (path : List Segment) → on_line path [] ≡ true
unfolding on_line
on_line_nil [] = refl
on_line_nil (seg ∷ path) = refl

module _ ⦃crates : Crates⦄ where
  -- What the loop over the children finds.
  pub walk_each_sound :
      (go : Skey → SdbResult (List Skey)) (cs out : List Skey) (c : Skey)
      → walk_each go cs ≡ ok out
      → Memᴰ c out
      → (d : Skey) × Memᴰ d cs × (o : List Skey) × (go d ≡ ok o) × Memᴰ c o
  unfolding walk_each
  walk_each_sound go [] out c e m = absurd (not-nil (rw (← ok-inj e) at m))
  walk_each_sound go (d ∷ cs) out c e m =
      let (o, here, e') = bind_inv (go d) _ out e in
      let (rest, there, e'') = bind_inv (walk_each go cs) _ out e' in
      elim (append_cases o (rw (← ok-inj e'') at m)) [
        | inl h ↦ (d, head refl, o, here, h)
        | inr h ↦
            let (d', m', o', found, h') = walk_each_sound go cs rest c there h in
            (d', tail m', o', found, h')
      ]

  pub walk_each_complete :
      (go : Skey → SdbResult (List Skey)) (cs out : List Skey) (d : Skey)
      → walk_each go cs ≡ ok out
      → Memᴰ d cs
      → (o : List Skey) × (go d ≡ ok o) × ((c : Skey) → Memᴰ c o → Memᴰ c out)
  unfolding walk_each
  walk_each_complete go [] out d e m = absurd (not-nil m)
  walk_each_complete go (c ∷ cs) out d e m =
      let (o, here, e') = bind_inv (go c) _ out e in
      let (rest, there, e'') = bind_inv (walk_each go cs) _ out e' in
      elim (cases_cons m) [
        | inl same ↦ (o, rw same here, λ x h. rw (← ok-inj e'') (append_left rest h))
        | inr later ↦
            let (o', found, in_rest) = walk_each_complete go cs rest d there later in
            (o', found, λ x h. rw (← ok-inj e'') (append_right o (in_rest x h)))
      ]
