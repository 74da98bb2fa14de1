-- ===== src/Index/Keys.antt =====
-- The keys of index entries: `index_key` of crates/stratodb/src/index/maintenance.rs, on the values
-- that the columns of the entity hold.
use stratodb.Base.{
  ℕ, ◌^◌, ◌<◌, ◌≡◌, refl, sym, ◌∙◌, List, [], ◌∷◌, ◌++◌, append_assoc, append-nil, length, Bool,
  true, false, if◌then◌else◌, some, none, Bool-cases, inl, inr, All, Ordering, and_then, and_then?,
  lex, lex?, lex?-append_lex?, lex?-lex, arith,
}
use stratodb.Crates.{Crates}
use stratodb.Key.{Skey, into_bytes}
use stratodb.Scalar.{Scalar, IsWellTyped}
use stratodb.Engine.TableKey.{TableKey, index, encode, cmp, cmp_fields, cmp_entity, tag}
use stratodb.Engine.TableKey.RoundTrip.{IsKey}
use stratodb.Engine.TableKey.Order.{cmp-encode, AreSplit}
use stratodb.Engine.TableValue.{TableValue, skey, nothing}
use stratodb.Index.Definition.{IndexColumn, IndexDef, is_desc, put_values, encode_columns}
use stratodb.Index.Ordered.Reference.{column_cmp}
use stratodb.Index.Ordered.Order.{column, encode_scalar-column, lex?-column}

module _ ⦃crates : Crates⦄ where
  unfoldable pub index_key : ℕ → IndexDef → List Scalar → Skey → TableKey × TableValue
  unfolding encode_columns
  index_key id def values entity = (
    index id (encode_columns def values) (if def.unique then none else some entity),
    if def.unique then skey entity else nothing,
  )

  -- The order of two rows of values: the first column that differs decides.
  unfoldable pub row_cmp : List IndexColumn → List Scalar → List Scalar → Ordering
  unfolding column_cmp is_desc
  row_cmp (c ∷ columns) (a ∷ xs) (b ∷ ys) =
      and_then (column_cmp (is_desc c.direction) a b) (row_cmp columns xs ys)
  row_cmp _ _ _ = Ordering.eq

  unfoldable pub row_image : List IndexColumn → List Scalar → List ℕ
  row_image (c ∷ columns) (a ∷ xs) = column (is_desc c.direction) a ++ row_image columns xs
  row_image _ _ = []

  put_values-image :
      (cols : List ℕ) (columns : List IndexColumn) (values : List Scalar)
      → All IsWellTyped values
      → put_values cols values columns ≡ cols ++ row_image columns values
  unfolding put_values row_image
  put_values-image cols [] [] h = sym (append-nil cols)
  put_values-image cols (c ∷ columns) [] h = sym (append-nil cols)
  put_values-image cols [] (value ∷ values) h = sym (append-nil cols)
  put_values-image cols (c ∷ columns) (value ∷ values) (h, hs) =
      rw (encode_scalar-column cols value (is_desc c.direction) h) (
        put_values-image (cols ++ column (is_desc c.direction) value) columns values hs
        ∙ append_assoc cols (column (is_desc c.direction) value) (row_image columns values))

  lex?-row :
      (columns : List IndexColumn) (xs ys : List Scalar)
      → length xs ≡ length ys
      → All IsWellTyped xs
      → All IsWellTyped ys
      → lex? (row_image columns xs) (row_image columns ys) ≡ some (row_cmp columns xs ys)
  unfolding row_image row_cmp lex?
  lex?-row [] xs ys e ha hb = refl
  lex?-row (c ∷ columns) [] [] e ha hb = refl
  lex?-row (c ∷ columns) [] (b ∷ ys) e ha hb = absurd (omega arith)
  lex?-row (c ∷ columns) (a ∷ xs) [] e ha hb = absurd (omega arith)
  lex?-row (c ∷ columns) (a ∷ xs) (b ∷ ys) e (ha, hxs) (hb, hys) =
      lex?-append_lex? (column (is_desc c.direction) a) (column (is_desc c.direction) b)
        (row_image columns xs) (row_image columns ys) _
        (lex?-column (is_desc c.direction) a b ha hb)
      ∙ rw (lex?-row columns xs ys (omega arith) hxs hys)
          (decided (column_cmp (is_desc c.direction) a b) (row_cmp columns xs ys))
    where
      decided : (o p : Ordering) → and_then? o (some p) ≡ some (and_then o p)
      decided o p = ground arith

  pub encode_columns-row :
      (def : IndexDef) (values : List Scalar)
      → All IsWellTyped values
      → encode_columns def values ≡ row_image def.columns values
  unfolding encode_columns
  encode_columns-row def values h = put_values-image [] def.columns values h

  -- The column bytes of two rows of the same length are never proper prefixes of one another, and
  -- compare bytewise as the rows do: by the first column that differs, in its direction.
  pub encode_columns_order :
      (def : IndexDef) (xs ys : List Scalar)
      → length xs ≡ length ys
      → All IsWellTyped xs
      → All IsWellTyped ys
      → lex? (encode_columns def xs) (encode_columns def ys) ≡ some (row_cmp def.columns xs ys)
  encode_columns_order def xs ys e hx hy =
      rw (encode_columns-row def xs hx, encode_columns-row def ys hy)
        (lex?-row def.columns xs ys e hx hy)

  -- The entities behind the columns, of a non-unique index.
  abbrev pub tie : Bool → Skey → Skey → Ordering
  tie true x y = Ordering.eq
  tie false x y = lex (into_bytes x) (into_bytes y)

  index_key-cmp :
      (id : ℕ) (def : IndexDef) (xs ys : List Scalar) (x y : Skey) (c : Ordering)
      → lex? (encode_columns def xs) (encode_columns def ys) ≡ some c
      → cmp (index_key id def xs x).0 (index_key id def ys y).0 ≡ and_then c (tie def.unique x y)
  unfolding cmp cmp_fields cmp_entity tag index_key
  index_key-cmp id def xs ys x y c h =
      let same = lex?-lex (encode_columns def xs) (encode_columns def ys) c h in
      elim (Bool-cases def.unique) [
        | inl u ↦ rw (u, same) (ground arith)
        | inr u ↦ rw (u, same) (ground arith)
      ]

  index_key-AreSplit :
      (id : ℕ) (def : IndexDef) (xs ys : List Scalar) (x y : Skey) (c : Ordering)
      → lex? (encode_columns def xs) (encode_columns def ys) ≡ some c
      → AreSplit (index_key id def xs x).0 (index_key id def ys y).0
  unfolding index_key
  index_key-AreSplit id def xs ys x y c h =
      let same = lex?-lex (encode_columns def xs) (encode_columns def ys) c h in
      elim (Bool-cases def.unique) [ inl u ↦ rw u tt | inr u ↦ rw (u, same) (λ _. h) ]

  index_key-IsWellTyped :
      (id : ℕ) (def : IndexDef) (values : List Scalar) (entity : Skey)
      → id < 2 ^ 32
      → IsKey (index_key id def values entity).0
  unfolding index_key
  index_key-IsWellTyped id def values entity h = h

  -- Two entries of one index stand in the table, by their bytes and by `Ord`, as their rows are
  -- ordered, and in a non-unique index entries of equal rows as the keys of their entities.
  pub index_key_order :
      (id : ℕ) (def : IndexDef) (xs ys : List Scalar) (x y : Skey)
      → id < 2 ^ 32
      → length xs ≡ length ys
      → All IsWellTyped xs
      → All IsWellTyped ys
      → (cmp (index_key id def xs x).0 (index_key id def ys y).0
          ≡ and_then (row_cmp def.columns xs ys) (tie def.unique x y))
        × (lex (encode (index_key id def xs x).0) (encode (index_key id def ys y).0)
            ≡ and_then (row_cmp def.columns xs ys) (tie def.unique x y))
  index_key_order id def xs ys x y small e hx hy =
      let rows = encode_columns_order def xs ys e hx hy in
      let fields_order = index_key-cmp id def xs ys x y _ rows in
      (
        fields_order,
        sym (
              cmp-encode (index_key id def xs x).0 (index_key id def ys y).0
                (index_key-IsWellTyped id def xs x small) (index_key-IsWellTyped id def ys y small)
                (index_key-AreSplit id def xs ys x y _ rows))
            ∙ fields_order,
      )
