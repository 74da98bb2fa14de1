-- ===== src/Index/Pattern/Covers.antt =====
-- The entities that the walk of a pattern finds are those at the paths that match it, on the line of
-- the scope.
use mathlib.Core.List.{Memᴰ}
use mathlib.Core.List.Memᴰ.{head, cases_cons, not-nil}
use stratodb.Base.{
  both_true, not_some, ◌↔◌, ◌≡◌, refl, sym, ap, ◌∙◌, inl, inr, List, [], ◌∷◌, true, Bool-cases,
  Option, none, some, some-inj,
}
use stratodb.Error.{Segment, SPath, SdbResult, ok}
use stratodb.Crates.{Crates}
use stratodb.Key.{Skey}
use stratodb.Key
use stratodb.Engine.Backend.{ReadNodes}
use stratodb.Tree.{child_key, children}
use stratodb.Tree
use stratodb.Index.Pattern.{
  PatternSeg, lit, star, Pattern, seg_eq, seg_matches, walk, walk_child, affected_entities,
}
use stratodb.Index.Pattern.Matches.{
  seg_eq_sound, seg_eq_refl, ok-inj, bind_inv, matches, on_line, on_line_nil, walk_each_sound,
  walk_each_complete,
}

module _ ⦃crates : Crates⦄ (R : ReadNodes) (s : R.Store) where
  -- The children of a node are what its segments lead to.
  pub record ListsChildren : Type 0 where
    pub led :
        (k c : Skey) (cs : List Skey)
        → children R s k ≡ ok cs
        → Memᴰ c cs
        → (seg : Segment) × (child_key R s k seg ≡ ok (some c))
    pub listed :
        (k c : Skey) (cs : List Skey) (seg : Segment)
        → children R s k ≡ ok cs
        → child_key R s k seg ≡ ok (some c)
        → Memᴰ c cs

  -- A path of a found entity.
  abbrev pub Found : List PatternSeg → List Segment → Skey → Skey → Type 0
  Found segs scope cur c =
      (path : List Segment) × (matches segs path ≡ true)
      × (on_line path scope ≡ true)
      × (Tree.walk R s cur path ≡ ok (some c))

  -- A path that goes on from the child at `seg`.
  Found-step :
      (pat : PatternSeg) (segs : List PatternSeg) (seg : Segment) (scope rest : List Segment)
      (cur d c : Skey)
      → seg_matches pat seg ≡ true
      → ((path : List Segment) → on_line path rest ≡ true → on_line (seg ∷ path) scope ≡ true)
      → child_key R s cur seg ≡ ok (some d)
      → Found segs rest d c
      → Found (pat ∷ segs) scope cur c
  unfolding matches Tree.walk
  Found-step pat segs seg scope rest cur d c fits line here (path, m, l, w) =
      (seg ∷ path, rw (fits, m) refl, line path l, rw here w)

  walk_child_inv :
      (go : Skey → SdbResult (List Skey)) (next : Option Skey) (out : List Skey) (c : Skey)
      → walk_child go next ≡ ok out
      → Memᴰ c out
      → (d : Skey) × (next ≡ some d) × (go d ≡ ok out)
  unfolding walk_child
  walk_child_inv go none out c e m = absurd (not-nil (rw (← ok-inj e) at m))
  walk_child_inv go (some d) out c e m = (d, refl, e)

  -- Every entity that the walk finds is at a path that matches the pattern and is on the line of the
  -- scope, if the children of a node are what its segments lead to.
  pub walk_sound :
      (lists : ListsChildren) (segs : List PatternSeg) (scope : List Segment) (cur c : Skey)
      (out : List Skey)
      → walk R s segs cur scope ≡ ok out
      → Memᴰ c out
      → Found segs scope cur c
  unfolding walk seg_matches on_line matches Tree.walk
  walk_sound lists [] scope cur c out e m = elim (cases_cons (rw (← ok-inj e) at m)) [
    | inl same ↦ ([], refl, refl, rw same refl)
    | inr h ↦ absurd (not-nil h)
  ]
  walk_sound lists (lit seg ∷ segs) [] cur c out e m =
      let (next, here, e') = bind_inv (child_key R s cur seg) _ out e in
      let (d, is_d, e'') = walk_child_inv _ next out c e' m in
      Found-step (lit seg) segs seg [] [] cur d c (seg_eq_refl seg) (λ path l. refl)
        (here ∙ ap ok is_d) (walk_sound lists segs [] d c out e'' m)
  walk_sound lists (lit seg ∷ segs) (taken ∷ scope) cur c out e m =
      elim (Bool-cases (seg_eq taken seg)) [
        | inr differ ↦ absurd (not-nil (rw (← ok-inj (rw differ at e)) at m))
        | inl same ↦
            let (next, here, e') = bind_inv (child_key R s cur seg) _ out (rw same at e) in
            let (d, is_d, e'') = walk_child_inv _ next out c e' m in
            Found-step (lit seg) segs seg (taken ∷ scope) scope cur d c (seg_eq_refl seg)
              (λ path l. rw (same, l) refl) (here ∙ ap ok is_d)
              (walk_sound lists segs scope d c out e'' m)
      ]
  walk_sound lists (star ∷ segs) [] cur c out e m =
      let (cs, here, e') = bind_inv (children R s cur) _ out e in
      let (d, m', o, go, m'') = walk_each_sound _ cs out c e' m in
      let (seg, led) = lists.led cur d cs here m' in
      Found-step star segs seg [] [] cur d c refl (λ path l. refl) led
        (walk_sound lists segs [] d c o go m'')
  walk_sound lists (star ∷ segs) (taken ∷ scope) cur c out e m =
      let (next, here, e') = bind_inv (child_key R s cur taken) _ out e in
      let (d, is_d, e'') = walk_child_inv _ next out c e' m in
      Found-step star segs taken (taken ∷ scope) scope cur d c refl
        (λ path l. rw (seg_eq_refl taken, l) refl) (here ∙ ap ok is_d)
        (walk_sound lists segs scope d c out e'' m)

  walk_inv :
      (seg : Segment) (path : List Segment) (cur c : Skey)
      → Tree.walk R s cur (seg ∷ path) ≡ ok (some c)
      → (d : Skey) × (child_key R s cur seg ≡ ok (some d)) × (Tree.walk R s d path ≡ ok (some c))
  unfolding Tree.walk
  walk_inv seg path cur c w =
      let (next, here, w') = bind_inv (child_key R s cur seg) _ (some c) w in go next here w'
    where
      go :
          (next : Option Skey)
          → child_key R s cur seg ≡ ok next
          → elim next [ none ↦ ok none | some d ↦ Tree.walk R s d path ] ≡ ok (some c)
          → (d : Skey) × (child_key R s cur seg ≡ ok (some d))
            × (Tree.walk R s d path ≡ ok (some c))
      go none here w' = absurd (not_some (ok-inj w'))
      go (some d) here w' = (d, here, w')

  -- Every entity at a path that matches the pattern and is on the line of the scope is found, where
  -- the walk returns a result and the children of a node are what its segments lead to.
  pub walk_complete :
      (lists : ListsChildren) (segs : List PatternSeg) (scope path : List Segment) (cur c : Skey)
      (out : List Skey)
      → walk R s segs cur scope ≡ ok out
      → matches segs path ≡ true
      → on_line path scope ≡ true
      → Tree.walk R s cur path ≡ ok (some c)
      → Memᴰ c out
  unfolding walk matches on_line seg_matches Tree.walk walk_child
  walk_complete lists [] scope [] cur c out e m l w =
      let same : cur ≡ c = some-inj (ok-inj w) in rw (← ok-inj e) (head (sym same))
  walk_complete lists [] scope (seg ∷ path) cur c out e m l w = cc
  walk_complete lists (pat ∷ segs) scope [] cur c out e m l w = cc
  walk_complete lists (lit seg' ∷ segs) [] (seg ∷ path) cur c out e m l w =
      let (fits, m') = both_true (seg_eq seg' seg) (matches segs path) m in
      let (d, here, w') = walk_inv seg path cur c w in
      walk_complete lists segs [] path d c out (rw (seg_eq_sound seg' seg fits, here) at e) m'
        (on_line_nil path) w'
  walk_complete lists (lit seg' ∷ segs) (taken ∷ scope) (seg ∷ path) cur c out e m l w =
      let (fits, m') = both_true (seg_eq seg' seg) (matches segs path) m in
      let (on, l') = both_true (seg_eq taken seg) (on_line path scope) l in
      let (d, here, w') = walk_inv seg path cur c w in
      let e' = rw (seg_eq_sound seg' seg fits, on, here) at e in
      walk_complete lists segs scope path d c out e' m' l' w'
  walk_complete lists (star ∷ segs) [] (seg ∷ path) cur c out e m l w =
      let (cs, here, e') = bind_inv (children R s cur) _ out e in
      let (d, led, w') = walk_inv seg path cur c w in
      let (o, found, all) = walk_each_complete _ cs out d e' (lists.listed cur d cs seg here led) in
      all c (walk_complete lists segs [] path d c o found m (on_line_nil path) w')
  walk_complete lists (star ∷ segs) (taken ∷ scope) (seg ∷ path) cur c out e m l w =
      let (on, l') = both_true (seg_eq taken seg) (on_line path scope) l in
      let (d, here, w') = walk_inv seg path cur c w in
      walk_complete lists segs scope path d c out (rw (seg_eq_sound taken seg on, here) at e) m l'
        w'

  -- Where `affected_entities` returns a result, and the children of a node are what its segments
  -- lead to, the result has exactly the entities at the paths from the root that match the pattern
  -- and of which one leads on to the scope or the scope to it.
  pub affected_entities-Found :
      (lists : ListsChildren) (p : Pattern) (scope : SPath) (c : Skey) (out : List Skey)
      → affected_entities R s p scope ≡ ok out
      → Memᴰ c out ↔ Found p.segs scope.segments Key.root c
  unfolding affected_entities
  affected_entities-Found lists p scope c out e = (
    walk_sound lists p.segs scope.segments Key.root c out e,
    λ (path, m, l, w). walk_complete lists p.segs scope.segments path Key.root c out e m l w,
  )
