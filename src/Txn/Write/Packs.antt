-- ===== src/Txn/Write/Packs.antt =====
-- What an index covers is not packed away.
use mathlib.Core.List.{Memᴰ}
use mathlib.Core.List.Memᴰ.{cases_cons, not-nil}
use stratodb.Base.{
  both_true, ◌<◌, ◌≡◌, refl, inl, inr, List, [], ◌∷◌, ◌++◌, true, false, Bool-cases, length, ltb,
  arith,
}
use stratodb.Error.{Segment, SPath, ok}
use stratodb.Index.Pattern.{PatternSeg, Pattern, seg_matches, zip_matches, covers_strictly_below}
use stratodb.Index.Pattern.Matches.{matches}
use stratodb.Index.Maintenance.{IndexEntry}
use stratodb.Txn.Write.{index_patterns, any_covers, should_pack}

-- A path strictly below `base` that matches is longer than `base`, and matches along it.
matches-zip_matches :
    (segs : List PatternSeg) (base : List Segment) (seg : Segment) (rest : List Segment)
    → matches segs (base ++ seg ∷ rest) ≡ true
    → (length base < length segs) × (zip_matches base segs ≡ true)
unfolding matches zip_matches
matches-zip_matches [] [] seg rest m = cc
matches-zip_matches [] (b ∷ base) seg rest m = cc
matches-zip_matches (p ∷ segs) [] seg rest m = (omega arith, refl)
matches-zip_matches (p ∷ segs) (b ∷ base) seg rest m =
    let (here, later) = both_true (seg_matches p b) (matches segs (base ++ seg ∷ rest)) m in
    let (shorter, along) = matches-zip_matches segs base seg rest later in
    (omega (arith, shorter), rw (here, along) refl)

covers-matches :
    (p : Pattern) (base : SPath) (seg : Segment) (rest : List Segment)
    → matches p.segs (base.segments ++ seg ∷ rest) ≡ true
    → covers_strictly_below p base ≡ true
unfolding covers_strictly_below
covers-matches p base seg rest m =
    let (shorter, along) = matches-zip_matches p.segs base.segments seg rest m in
    let test : ltb (length base.segments) (length p.segs) ≡ true = ground (arith, shorter) in
    rw (test, along) refl

any_covers-Mem :
    (base : SPath) (patterns : List Pattern) (p : Pattern)
    → Memᴰ p patterns
    → covers_strictly_below p base ≡ true
    → any_covers base patterns ≡ true
unfolding any_covers
any_covers-Mem base [] p m c = absurd (not-nil m)
any_covers-Mem base (q ∷ patterns) p m c = elim (cases_cons m) [
  | inl same ↦ rw (← same, c) refl
  | inr later ↦ elim (Bool-cases (covers_strictly_below q base)) [
    | inl yes' ↦ rw yes' refl
    | inr no' ↦ rw (no', any_covers-Mem base patterns p later c) refl
  ]
]

-- Where a pattern of the table's indexes matches a path strictly below `base`, `should_pack` decides
-- against packing what is stored at `base`.
pub should_pack-matches :
    (indexes : List IndexEntry) (patterns : List Pattern) (p : Pattern) (base : SPath)
    (seg : Segment) (rest : List Segment)
    → index_patterns indexes ≡ ok patterns
    → Memᴰ p patterns
    → matches p.segs (base.segments ++ seg ∷ rest) ≡ true
    → should_pack indexes base ≡ ok false
unfolding should_pack
should_pack-matches indexes patterns p base seg rest e m fits =
    rw (e, any_covers-Mem base patterns p m (covers-matches p base seg rest fits)) refl
