-- ===== src/Spath/Slices.antt =====
-- The slices of a text in crates/stratodb/src/path/functions.rs that are in range.
use stratodb.Base.{
  ℕ, suc, ◌-◌, ◌≤◌, ◌<◌, ◌≡◌, refl, ◌∷◌, true, false, leb, find, find-lt, none, some, some-inj,
  Option-cases, inl, inr, Text, length, take, drop, ◌==◌, arith,
}
use stratodb.Error.{ok}
use stratodb.Spath.Parse.{slice, slice_from}

pub slice_front : (s : Text) (to : ℕ) → to ≤ length s → slice s 0 to ≡ ok (take to s)
unfolding slice
slice_front s to h =
    let low : leb 0 to ≡ true = ground arith in
    let high : leb to (length s) ≡ true = ground (arith, h) in
    let whole : to - 0 ≡ to = omega arith in rw (low, high, whole) refl

pub slice_behind :
    (c : ℕ) (cs : Text) (to : ℕ)
    → 1 ≤ to
    → to ≤ length (c ∷ cs)
    → slice (c ∷ cs) 1 to ≡ ok (take (to - 1) cs)
unfolding slice
slice_behind c cs to h k =
    let low : leb 1 to ≡ true = ground (arith, h) in
    let high : leb to (length (c ∷ cs)) ≡ true = ground (arith, k) in rw (low, high) refl

pub slice_from_lem : (s : Text) (from : ℕ) → from ≤ length s → slice_from s from ≡ ok (drop from s)
unfolding slice_from
slice_from_lem s from h = let low : leb from (length s) ≡ true = ground (arith, h) in rw low refl

-- A closing bracket stands behind the opening one.
pub close_behind :
    (c : ℕ) (cs : Text) (close : ℕ)
    → (c == b'[') ≡ true
    → find b']' (c ∷ cs) ≡ some close
    → (1 ≤ close) × (close < length (c ∷ cs))
unfolding find
close_behind c cs close opened found = (behind, find-lt b']' (c ∷ cs) close found)
  where
    opening : (c == b']') ≡ false
    opening = ground arith

    behind : 1 ≤ close
    behind = elim (Option-cases (find b']' cs)) [
      | inl nothing ↦ let failed : none ≡ some close = rw (opening, nothing) at found in cc
      | inr (j, there) ↦
          let next : some (suc j) ≡ some close = rw (opening, there) at found in
          rw (← some-inj next) (omega arith)
    ]
