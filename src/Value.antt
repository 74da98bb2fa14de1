-- ===== src/Value.antt =====
-- crates/stratodb/src/value.rs: the dynamic document. A `BTreeMap` of texts is the list of its
-- entries, in the order of the keys' bytes. A `&mut` argument is passed on beside the result.
pub mod Set
use stratodb.Base.{
  ℕ, zero, suc, ◌<◌, List, [], ◌∷◌, Bool, true, false, Option, some, none, Text, lex, text_eq,
  Ordering, compare, if◌then◌else◌,
}
use stratodb.Error.{Segment, SPath, name, index, SdbResult, ok, err, panic}
use stratodb.Crates.{Crates}
use stratodb.Scalar.{Scalar}
use stratodb.Spath.Parse.{PathSource, into_path}

module _ ⦃crates : Crates⦄ where
  mutual
    pub data Value : Type 0 where
      leaf : Scalar → Value
      list : Values → Value
      node : Entries → Value

    -- `Vec<Value>`.
    pub data Values : Type 0 where
      nil : Values
      cons : Value → Values → Values

    -- `BTreeMap<String, Value>`.
    pub data Entries : Type 0 where
      empty : Entries
      entry : Text → Value → Entries → Entries

  -- What the standard library does with a vector.
  unfoldable pub len : Values → ℕ
  len nil = 0
  len (cons v vs) = suc (len vs)

  unfoldable pub vec_get : Values → ℕ → Option Value
  vec_get nil i = none
  vec_get (cons v vs) zero = some v
  vec_get (cons v vs) (suc i) = vec_get vs i

  unfoldable pub vec_set : Values → ℕ → Value → Values
  vec_set nil i w = nil
  vec_set (cons v vs) zero w = cons w vs
  vec_set (cons v vs) (suc i) w = cons v (vec_set vs i w)

  unfoldable pub vec_push : Values → Value → Values
  vec_push nil w = cons w nil
  vec_push (cons v vs) w = cons v (vec_push vs w)

  unfoldable pub vec_extend : Values → Values → Values
  vec_extend nil ws = ws
  vec_extend (cons v vs) ws = cons v (vec_extend vs ws)

  unfoldable pub vec_remove : Values → ℕ → SdbResult Values
  vec_remove nil i = panic
  vec_remove (cons v vs) zero = ok vs
  vec_remove (cons v vs) (suc i) = elim (vec_remove vs i) [
    | ok rest ↦ ok (cons v rest)
    | err e ↦ err e
    | panic ↦ panic
  ]

  -- And with a map.
  unfoldable pub map_get : Entries → Text → Option Value
  map_get empty k = none
  map_get (entry k' v m) k = if text_eq k k' then some v else map_get m k

  unfoldable pub map_insert : Entries → Text → Value → Entries
  map_insert empty k v = entry k v empty
  map_insert (entry k' v' m) k v =
      let rest = map_insert m k v in
      elim (lex k k') [
        | Ordering.lt ↦ entry k v (entry k' v' m)
        | Ordering.eq ↦ entry k v m
        | Ordering.gt ↦ entry k' v' rest
      ]

  unfoldable pub map_remove : Entries → Text → Entries
  map_remove empty k = empty
  map_remove (entry k' v m) k = if text_eq k k' then m else entry k' v (map_remove m k)

  unfoldable pub map_extend : Entries → Entries → Entries
  unfolding map_insert
  map_extend m empty = m
  map_extend m (entry k v more) = map_extend (map_insert m k v) more

  -- A value that was written through `get_mut`.
  unfoldable pub map_put : Entries → Text → Value → Entries
  map_put empty k w = empty
  map_put (entry k' v m) k w = if text_eq k k' then entry k' w m else entry k' v (map_put m k w)

  unfoldable pub at : Value → ℕ → Option Value
  unfolding vec_get
  at (list vs) i = vec_get vs i
  at _ i = none

  unfoldable pub get : Value → Text → Option Value
  unfolding map_get
  get (node m) k = map_get m k
  get _ k = none

  unfoldable pub contains_key : Value → Text → Bool
  unfolding map_get
  contains_key (node m) k = elim (map_get m k) [ none ↦ false | some v ↦ true ]
  contains_key _ k = false

  unfoldable pub clear : Value → Value
  clear (leaf s) = leaf Scalar.null
  clear (list vs) = list nil
  clear (node m) = node empty

  unfoldable pub push : Value → Value → Value
  unfolding vec_push
  push (list vs) v = list (vec_push vs v)
  push other v = other

  unfoldable pub insert : Value → Text → Value → Value
  unfolding map_insert
  insert (node m) k v = node (map_insert m k v)
  insert other k v = other

  unfoldable pub remove_at : Value → ℕ → SdbResult Value
  unfolding vec_remove
  remove_at (list vs) i = elim (vec_remove vs i) [
    | ok rest ↦ ok (list rest)
    | err e ↦ err e
    | panic ↦ panic
  ]
  remove_at other i = ok other

  unfoldable pub remove_key : Value → Text → Value
  unfolding map_remove
  remove_key (node m) k = node (map_remove m k)
  remove_key other k = other

  unfoldable pub merge : Value → Value → Value
  unfolding vec_extend vec_push map_extend
  merge (leaf s) with = with
  merge (list vs) (list ws) = list (vec_extend vs ws)
  merge (list vs) with = list (vec_push vs with)
  merge (node m) (node more) = node (map_extend m more)
  merge (node m) with = with

  unfoldable pub step : Value → Segment → Option Value
  unfolding get at
  step current (name n) = get current n
  step current (index i) = at current i

  -- The loop over the segments.
  unfoldable pub subtree : Value → List Segment → Option Value
  unfolding step
  subtree current [] = some current
  subtree current (segment ∷ rest) = elim (step current segment) [
    | none ↦ none
    | some next ↦ subtree next rest
  ]

  unfoldable pub build_fresh : List Segment → Value → Option Value
  build_fresh [] v = some v
  build_fresh (name n ∷ rest) v = elim (build_fresh rest v) [
    | none ↦ none
    | some sub ↦ some (node (entry n sub empty))
  ]
  build_fresh (index zero ∷ rest) v = elim (build_fresh rest v) [
    | none ↦ none
    | some sub ↦ some (list (cons sub nil))
  ]
  build_fresh (index (suc i) ∷ rest) v = none

  -- A fresh child is added, if one can be built.
  unfoldable pub grown : Value → (Value → Value) → Option Value → Bool × Value
  grown target add none = (false, target)
  grown target add (some sub) = (true, add sub)

  -- Whether it applied, and the target afterwards.
  unfoldable pub set_in : Value → List Segment → Value → Bool × Value
  unfolding map_get map_insert map_put vec_get vec_set vec_push len build_fresh grown
  set_in target [] v = (true, v)
  set_in (node m) (name n ∷ rest) v = elim (map_get m n) [
    | some child ↦ let (done, child') = set_in child rest v in (done, node (map_put m n child'))
    | none ↦ grown (node m) (λ sub. node (map_insert m n sub)) (build_fresh rest v)
  ]
  set_in (list vs) (index i ∷ rest) v = elim (vec_get vs i) [
    | some child ↦ let (done, child') = set_in child rest v in (done, list (vec_set vs i child'))
    | none ↦ elim (compare i (len vs)) [
      | Ordering.eq ↦ grown (list vs) (λ sub. list (vec_push vs sub)) (build_fresh rest v)
      | _ ↦ (false, list vs)
    ]
  ]
  set_in target (_ ∷ rest) v = (false, target)

  unfoldable pub get_value : Value → PathSource → Option Value
  unfolding subtree into_path
  get_value v path = elim (into_path path) [
    | ok p ↦ subtree v p.segments
    | err e ↦ none
    | panic ↦ none
  ]

  unfoldable pub set_value : Value → PathSource → Value → Bool × Value
  unfolding set_in into_path
  set_value target path v = elim (into_path path) [
    | ok p ↦ set_in target p.segments v
    | err e ↦ (false, target)
    | panic ↦ (false, target)
  ]
