-- ===== src/Value/Set.antt =====
-- `set_in`, against `subtree`.
use stratodb.Base.{
  ℕ, zero, suc, ◌≡◌, refl, ap, sym, ◌∙◌, List, [], ◌∷◌, Bool, true, false, Bool-cases, some,
  Option-cases, some-inj, not_some, inl, inr, Text, lex, lex_refl, text_eq, text_eq_refl,
  text_eq_sound, Ordering, compare, arith,
}
use stratodb.Error.{Segment, name, index}
use stratodb.Crates.{Crates}
use stratodb.Value.{
  Value, leaf, list, node, Values, nil, cons, Entries, empty, entry, len, vec_get, vec_set,
  vec_push, map_get, map_insert, map_put, at, get, step, subtree, build_fresh, grown, set_in,
}

text_eq_gt : (a b : Text) → lex a b ≡ Ordering.gt → text_eq a b ≡ false
text_eq_gt a b h = elim (Bool-cases (text_eq a b)) [
  | inl same ↦ absurd (differ (rw (text_eq_sound a b same, lex_refl b) at h))
  | inr other ↦ other
]
  where
    differ : Ordering.eq ≡ Ordering.gt → ⊥
    differ e = cc

module _ ⦃crates : Crates⦄ where
  map_get-insert : (m : Entries) (k : Text) (v : Value) → map_get (map_insert m k v) k ≡ some v
  unfolding map_get map_insert
  map_get-insert empty k v = rw (text_eq_refl k) refl
  map_get-insert (entry k' v' m) k v = by_order (lex k k') refl (map_get-insert m k v)
    where
      by_order :
          (o : Ordering)
          → lex k k' ≡ o
          → map_get (map_insert m k v) k ≡ some v
          → map_get (map_insert (entry k' v' m) k v) k ≡ some v
      by_order Ordering.lt e later = rw (e, map_insert) (rw (text_eq_refl k) refl)
      by_order Ordering.eq e later = rw (e, map_insert) (rw (text_eq_refl k) refl)
      by_order Ordering.gt e later = rw (e, map_insert) (rw (text_eq_gt k k' e) later)

  map_get-put :
      (m : Entries) (k : Text) (c w : Value)
      → map_get m k ≡ some c
      → map_get (map_put m k w) k ≡ some w
  unfolding map_get map_put
  map_get-put empty k c w h = cc
  map_get-put (entry k' v m) k c w h = elim (Bool-cases (text_eq k k')) [
    | inl e ↦ rw (e, map_put) (rw e refl)
    | inr e ↦ rw (e, map_put) (rw e (map_get-put m k c w (rw e at h)))
  ]

  map_put_same : (m : Entries) (k : Text) (c : Value) → map_get m k ≡ some c → map_put m k c ≡ m
  unfolding map_get map_put
  map_put_same empty k c h = refl
  map_put_same (entry k' v m) k c h = elim (Bool-cases (text_eq k k')) [
    | inl e ↦
        let same : some v ≡ some c = rw e at h in
        rw e (ap (λ x. entry k' x m) (sym (some-inj same)))
    | inr e ↦ rw e (ap (λ x. entry k' v x) (map_put_same m k c (rw e at h)))
  ]

  vec_get-set :
      (vs : Values) (i : ℕ) (c w : Value)
      → vec_get vs i ≡ some c
      → vec_get (vec_set vs i w) i ≡ some w
  unfolding vec_get vec_set
  vec_get-set nil i c w h = cc
  vec_get-set (cons v vs) zero c w h = refl
  vec_get-set (cons v vs) (suc i) c w h = vec_get-set vs i c w h

  vec_set_same : (vs : Values) (i : ℕ) (c : Value) → vec_get vs i ≡ some c → vec_set vs i c ≡ vs
  unfolding vec_get vec_set
  vec_set_same nil i c h = refl
  vec_set_same (cons v vs) zero c h = cc
  vec_set_same (cons v vs) (suc i) c h = ap (λ x. cons v x) (vec_set_same vs i c h)

  vec_get-push : (vs : Values) (w : Value) → vec_get (vec_push vs w) (len vs) ≡ some w
  unfolding vec_get vec_push len
  vec_get-push nil w = refl
  vec_get-push (cons v vs) w = vec_get-push vs w

  subtree-step :
      (v next : Value) (s : Segment) (rest : List Segment) (w : Value)
      → step v s ≡ some next
      → subtree next rest ≡ some w
      → subtree v (s ∷ rest) ≡ some w
  unfolding subtree
  subtree-step v next s rest w e h = rw (e, subtree) h

  build_fresh-subtree :
      (segs : List Segment) (v t : Value) → build_fresh segs v ≡ some t → subtree t segs ≡ some v
  unfolding build_fresh
  build_fresh-subtree [] v t h = unfold subtree in sym h
  build_fresh-subtree (name n ∷ rest) v t h = elim (Option-cases (build_fresh rest v)) [
    | inl e ↦ absurd (not_some (rw e at h))
    | inr (sub, e) ↦
        let made : some (node (entry n sub empty)) ≡ some t = rw e at h in
        rw (← some-inj made) (
          subtree-step (node (entry n sub empty)) sub (name n) rest v
            (unfold step get map_get in rw (text_eq_refl n) refl)
            (build_fresh-subtree rest v sub e))
  ]
  build_fresh-subtree (index zero ∷ rest) v t h = elim (Option-cases (build_fresh rest v)) [
    | inl e ↦ absurd (not_some (rw e at h))
    | inr (sub, e) ↦
        let made : some (list (cons sub nil)) ≡ some t = rw e at h in
        rw (← some-inj made) (
          subtree-step (list (cons sub nil)) sub (index zero) rest v
            (unfold step at vec_get in refl) (build_fresh-subtree rest v sub e))
  ]
  build_fresh-subtree (index (suc i) ∷ rest) v t h = cc

  -- What `set_in` did: it applied, and the value stands at the path, or it did not, and the target
  -- is as it was.
  abbrev IsOutcome : Value → List Segment → Value → Bool × Value → Type 0
  IsOutcome target segs v (true, target') = subtree target' segs ≡ some v
  IsOutcome target segs v (false, target') = target' ≡ target

  -- A container whose child was set: `put` writes it back.
  lift_child :
      (target child : Value) (s : Segment) (rest : List Segment) (v : Value) (put : Value → Value)
      → ((w : Value) → step (put w) s ≡ some w)
      → put child ≡ target
      → (result : Bool × Value) → IsOutcome child rest v result
      → IsOutcome target (s ∷ rest) v (result.0, put result.1)
  lift_child target child s rest v put reads keeps (true, child') h =
      subtree-step (put child') child' s rest v (reads child') h
  lift_child target child s rest v put reads keeps (false, child') h = ap put h ∙ keeps

  -- A child that is not there yet.
  grow :
      (target : Value) (s : Segment) (rest : List Segment) (v : Value) (add : Value → Value)
      → ((w : Value) → step (add w) s ≡ some w)
      → IsOutcome target (s ∷ rest) v (grown target add (build_fresh rest v))
  unfolding grown
  grow target s rest v add reads = elim (Option-cases (build_fresh rest v)) [
    | inl f ↦ rw (f, grown, IsOutcome) refl
    | inr (sub, f) ↦
        rw (f, grown, IsOutcome)
          (subtree-step (add sub) sub s rest v (reads sub) (build_fresh-subtree rest v sub f))
  ]

  -- An index that is not below the length.
  abbrev past_end : Values → Ordering → Bool × Value → Bool × Value
  past_end vs o pushed = elim o [ Ordering.eq ↦ pushed | _ ↦ (false, list vs) ]

  past_end-IsOutcome :
      (vs : Values) (i : ℕ) (rest : List Segment) (v : Value)
      → IsOutcome (list vs) (index i ∷ rest) v (
          past_end vs
            (compare i (len vs))
            (grown (list vs) (λ w. list (vec_push vs w)) (build_fresh rest v)))
  past_end-IsOutcome vs i rest v = by_order (compare i (len vs)) refl
    where
      by_order :
          (o : Ordering)
          → compare i (len vs) ≡ o
          → IsOutcome
              (list vs)
              (index i ∷ rest)
              v
              (past_end vs o (grown (list vs) (λ w. list (vec_push vs w)) (build_fresh rest v)))
      by_order Ordering.lt e = refl
      by_order Ordering.gt e = refl
      by_order Ordering.eq e =
          let last : len vs ≡ i = ground (arith, e) in
          grow (list vs) (index i) rest v (λ w. list (vec_push vs w))
            (λ w. unfold step at in rw last at (vec_get-push vs w))

  set_in-IsOutcome :
      (segs : List Segment) (target v : Value) → IsOutcome target segs v (set_in target segs v)
  unfolding set_in
  set_in-IsOutcome [] target v = unfold subtree in refl
  set_in-IsOutcome (name n ∷ rest) (node m) v = elim (Option-cases (map_get m n)) [
    | inl e ↦
        let run : set_in (node m) (name n ∷ rest) v
            ≡ grown (node m) (λ w. node (map_insert m n w)) (build_fresh rest v) =
          rw (e, set_in) refl in
        rw run (
          grow (node m) (name n) rest v (λ w. node (map_insert m n w))
            (λ w. unfold step get in map_get-insert m n w))
    | inr (child, e) ↦
        let run : set_in (node m) (name n ∷ rest) v
            ≡ ((set_in child rest v).0, node (map_put m n (set_in child rest v).1)) =
          rw (e, set_in) refl in
        rw run (
          lift_child (node m) child (name n) rest v (λ w. node (map_put m n w))
            (λ w. unfold step get in map_get-put m n child w e) (ap node (map_put_same m n child e))
            (set_in child rest v) (set_in-IsOutcome rest child v))
  ]
  set_in-IsOutcome (index i ∷ rest) (list vs) v = elim (Option-cases (vec_get vs i)) [
    | inl e ↦
        let run : set_in (list vs) (index i ∷ rest) v
            ≡ past_end vs (compare i (len vs))
                (grown (list vs) (λ w. list (vec_push vs w)) (build_fresh rest v)) =
          rw (e, set_in) refl in
        rw run (past_end-IsOutcome vs i rest v)
    | inr (child, e) ↦
        let run : set_in (list vs) (index i ∷ rest) v
            ≡ ((set_in child rest v).0, list (vec_set vs i (set_in child rest v).1)) =
          rw (e, set_in) refl in
        rw run (
          lift_child (list vs) child (index i) rest v (λ w. list (vec_set vs i w))
            (λ w. unfold step at in vec_get-set vs i child w e)
            (ap list (vec_set_same vs i child e)) (set_in child rest v)
            (set_in-IsOutcome rest child v))
  ]
  set_in-IsOutcome (name n ∷ rest) (leaf s) v = refl
  set_in-IsOutcome (name n ∷ rest) (list vs) v = refl
  set_in-IsOutcome (index i ∷ rest) (leaf s) v = refl
  set_in-IsOutcome (index i ∷ rest) (node m) v = refl

  pick :
      (target : Value) (segs : List Segment) (v : Value) (result : Bool × Value)
      → IsOutcome target segs v result
      → (result.0 ≡ true → subtree result.1 segs ≡ some v) × (result.0 ≡ false → result.1 ≡ target)
  pick target segs v (true, target') h = (λ _. h, λ e. cc)
  pick target segs v (false, target') h = (λ e. cc, λ _. h)

  -- Where setting a value at a path reports that it applied, the value stands at that path
  -- afterwards; where it reports that it did not, the target is as it was.
  pub set_in-subtree :
      (segs : List Segment) (target v : Value)
      → ((set_in target segs v).0 ≡ true → subtree (set_in target segs v).1 segs ≡ some v)
        × ((set_in target segs v).0 ≡ false → (set_in target segs v).1 ≡ target)
  set_in-subtree segs target v =
      pick target segs v (set_in target segs v) (set_in-IsOutcome segs target v)
