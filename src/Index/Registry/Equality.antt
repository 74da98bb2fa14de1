-- ===== src/Index/Registry/Equality.antt =====
-- The tests of equality that crates/stratodb/src/index/registry/repository.rs uses.
use stratodb.Base.{
  ◌≡◌, refl, List, [], ◌∷◌, Bool, true, false, both_true, text_eq, text_eq_sound, text_eq_refl,
}
use stratodb.Error.{Segment}
use stratodb.Index.Definition.{Direction, asc, desc, IndexColumn, IndexDef, is_desc}
use stratodb.Index.Pattern.{seg_eq}
use stratodb.Index.Pattern.Matches.{seg_eq_sound, seg_eq_refl}
use stratodb.Index.Maintenance.{IndexEntry}
use stratodb.Index.Registry.{segments_eq, bool_eq, columns_eq, def_eq, is_named}

pub segments_eq_sound : (xs ys : List Segment) → segments_eq xs ys ≡ true → xs ≡ ys
unfolding segments_eq
segments_eq_sound [] [] e = refl
segments_eq_sound (x ∷ xs) (y ∷ ys) e =
    let (here, later) = both_true (seg_eq x y) (segments_eq xs ys) e in
    rw (seg_eq_sound x y here, segments_eq_sound xs ys later) refl
segments_eq_sound [] (y ∷ ys) e = cc
segments_eq_sound (x ∷ xs) [] e = cc

pub segments_eq_refl : (xs : List Segment) → segments_eq xs xs ≡ true
unfolding segments_eq
segments_eq_refl [] = refl
segments_eq_refl (x ∷ xs) = rw (seg_eq_refl x, segments_eq_refl xs) refl

bool_eq_sound : (a b : Bool) → bool_eq a b ≡ true → a ≡ b
unfolding bool_eq
bool_eq_sound true true e = refl
bool_eq_sound false false e = refl
bool_eq_sound true false e = cc
bool_eq_sound false true e = cc

is_desc-inj : (a b : Direction) → is_desc a ≡ is_desc b → a ≡ b
unfolding is_desc
is_desc-inj asc asc e = refl
is_desc-inj desc desc e = refl
is_desc-inj asc desc e = cc
is_desc-inj desc asc e = cc

column_sound :
    (a b : IndexColumn)
    → segments_eq a.path.segments b.path.segments ≡ true
    → bool_eq (is_desc a.direction) (is_desc b.direction) ≡ true
    → a ≡ b
column_sound a b p d =
    let segments = segments_eq_sound a.path.segments b.path.segments p in
    let direction = is_desc-inj a.direction b.direction (bool_eq_sound _ _ d) in
    λ i. record { path = record { segments = segments i }; direction = direction i }

columns_eq_sound : (xs ys : List IndexColumn) → columns_eq xs ys ≡ true → xs ≡ ys
unfolding columns_eq
columns_eq_sound [] [] e = refl
columns_eq_sound (x ∷ xs) (y ∷ ys) e =
    let (path, rest) = both_true (segments_eq x.path.segments y.path.segments) _ e in
    let (direction, later) =
      both_true (bool_eq (is_desc x.direction) (is_desc y.direction)) _ rest in
    rw (column_sound x y path direction, columns_eq_sound xs ys later) refl
columns_eq_sound [] (y ∷ ys) e = cc
columns_eq_sound (x ∷ xs) [] e = cc

pub def_eq_sound : (a b : IndexDef) → def_eq a b ≡ true → a ≡ b
unfolding def_eq
def_eq_sound a b e =
    let (names, rest) = both_true (text_eq a.name b.name) _ e in
    let (patterns, rest') = both_true (text_eq a.pattern b.pattern) _ rest in
    let (columns, uniques) = both_true (columns_eq a.columns b.columns) _ rest' in
    let n = text_eq_sound a.name b.name names in
    let p = text_eq_sound a.pattern b.pattern patterns in
    let c = columns_eq_sound a.columns b.columns columns in
    let u = bool_eq_sound a.unique b.unique uniques in
    λ i. record { name = n i; pattern = p i; columns = c i; unique = u i }

-- An entry has its own table and name.
pub is_named_refl : (entry : IndexEntry) → is_named entry.table entry.def.name entry ≡ true
unfolding is_named
is_named_refl entry = rw (text_eq_refl entry.table, text_eq_refl entry.def.name) refl
