-- ===== src/Tree/Edit/Order.antt =====
-- `list_move` of crates/stratodb/src/tree.rs reorders the vector of a list.
use stratodb.Base.{
  ℕ, zero, suc, ◌≤◌, ◌<◌, ◌≡◌, refl, sym, ap, List, [], ◌∷◌, some, some-inj, length, get_elem?, min,
  arith,
}
use stratodb.Error.{ok}
use stratodb.Crates.{Crates}
use stratodb.Key.{Skey}
use stratodb.Tree.Write.{remove_at, insert_at}
use stratodb.Tree.Edit.{move_item}

module _ {A : Type 0} where
  get_elem?-some : (xs : List A) (i : ℕ) → i < length xs → (x : A) × (get_elem? xs i ≡ some x)
  get_elem?-some [] i h = absurd (omega arith)
  get_elem?-some (x ∷ xs) zero h = (x, refl)
  get_elem?-some (x ∷ xs) (suc i) h = get_elem?-some xs i (omega arith)

  length-remove_at :
      (xs : List A) (i : ℕ) → i < length xs → suc (length (remove_at xs i)) ≡ length xs
  unfolding remove_at
  length-remove_at [] i h = absurd (omega arith)
  length-remove_at (x ∷ xs) zero h = refl
  length-remove_at (x ∷ xs) (suc i) h = ap suc (length-remove_at xs i (omega arith))

  get_elem?-insert_at :
      (xs : List A) (i : ℕ) (v : A) → i ≤ length xs → get_elem? (insert_at xs i v) i ≡ some v
  unfolding insert_at
  get_elem?-insert_at xs zero v h = refl
  get_elem?-insert_at [] (suc i) v h = absurd (omega arith)
  get_elem?-insert_at (x ∷ xs) (suc i) v h = get_elem?-insert_at xs i v (omega arith)

  remove_at-insert_at :
      (xs : List A) (i : ℕ) (v : A) → i ≤ length xs → remove_at (insert_at xs i v) i ≡ xs
  unfolding insert_at remove_at
  remove_at-insert_at xs zero v h = refl
  remove_at-insert_at [] (suc i) v h = absurd (omega arith)
  remove_at-insert_at (x ∷ xs) (suc i) v h =
      ap (λ t. x ∷ t) (remove_at-insert_at xs i v (omega arith))

  insert_at-remove_at :
      (xs : List A) (i : ℕ) (v : A) → get_elem? xs i ≡ some v → insert_at (remove_at xs i) i v ≡ xs
  unfolding insert_at remove_at
  insert_at-remove_at [] i v e = cc
  insert_at-remove_at (x ∷ xs) zero v e = ap (λ t. t ∷ xs) (sym (some-inj e))
  insert_at-remove_at (x ∷ xs) (suc i) v e = ap (λ t. x ∷ t) (insert_at-remove_at xs i v e)

module _ ⦃crates : Crates⦄ where
  -- Moving an element to a place inside the list, and the element there back, gives the list again.
  pub move_item-move_item :
      (items moved : List Skey) (from to : ℕ)
      → from < length items
      → to < length items
      → move_item items from to ≡ ok moved
      → move_item moved to from ≡ ok items
  unfolding move_item
  move_item-move_item items moved from to hf ht e =
      let (v, at) = get_elem?-some items from hf in
      let size = length-remove_at items from hf in
      let inside : min to (length (remove_at items from)) ≡ to = ground (arith, size) in
      let is : insert_at (remove_at items from) to v ≡ moved =
        ok-inj (rw (at, inside, move_item) at e) in
      let fits : to ≤ length (remove_at items from) = omega (arith, size) in
      let back : min from (length (remove_at items from)) ≡ from = ground (arith, size) in
      let here : get_elem? moved to ≡ some v =
        rw (← is) (get_elem?-insert_at (remove_at items from) to v fits) in
      let gone : remove_at moved to ≡ remove_at items from =
        rw (← is) (remove_at-insert_at (remove_at items from) to v fits) in
      rw (here, move_item, gone, back, insert_at-remove_at items from v at) refl
    where
      ok-inj : {x y : List Skey} → ok x ≡ ok y → x ≡ y
      ok-inj q = cc
