-- ===== src/Index/Maintenance/Columns.antt =====
-- The columns of an index entry, read off the document of the entity.
use stratodb.Base.{ℕ, ◌≡◌, refl, List, [], ◌∷◌, map, Option, none, some}
use stratodb.Error.{ok}
use stratodb.Crates.{Crates}
use stratodb.Key.{Skey}
use stratodb.Scalar.{Scalar}
use stratodb.Engine.Backend.{ReadNodes}
use stratodb.Engine.Archived.{Rkyv}
use stratodb.Index.Definition.{IndexColumn, IndexDef}
use stratodb.Index.Keys.{index_key}
use stratodb.Index.Maintenance.{column_scalar, column_scalars, entity_key}
use stratodb.Tree.Refines.Entity.{IsEntity, leaf_of, entity_leaf-subtree}
use stratodb.Value.{Value, subtree}

module _ ⦃crates : Crates⦄ where
  -- What a document has in a column: a leaf, or null.
  abbrev pub or_null : Option Scalar → Scalar
  or_null (some x) = x
  or_null none = Scalar.null

  abbrev pub column_value : Value → IndexColumn → Scalar
  column_value v column = or_null (leaf_of (subtree v column.path.segments))

  module _ ⦃rkyv : Rkyv⦄ (R : ReadNodes) (s : R.Store) where
    column_scalars-map :
        (k : Skey) (v : Value) (columns : List IndexColumn)
        → IsEntity R s k v
        → column_scalars R s k columns ≡ ok (map (column_value v) columns)
    unfolding column_scalars column_scalar
    column_scalars-map k v [] h = refl
    column_scalars-map k v (column ∷ columns) h =
        rw (entity_leaf-subtree R s k v column.path h, column_scalars-map k v columns h) refl

    -- The entry of an entity of a document, plain or packed, is the one of the values that the
    -- document has in the columns, with null where it has no leaf.
    pub entity_key-index_key :
        (id : ℕ) (def : IndexDef) (k : Skey) (v : Value)
        → IsEntity R s k v
        → entity_key R s id def k ≡ ok (index_key id def (map (column_value v) def.columns) k)
    unfolding entity_key
    entity_key-index_key id def k v h = rw (column_scalars-map k v def.columns h) refl
