-- ===== src/Index/Maintenance.antt =====
-- crates/stratodb/src/index/maintenance.rs: the entries of the indexes follow the tree. The table is
-- any store of nodes; `data.get`, `insert` and `remove` are its `fetch`, `put` and `delete`.
pub mod Update
pub mod Columns
pub mod Unique
use stratodb.Base.{
  ℕ, List, [], ◌∷◌, Bool, true, false, not, ◌==◌, Option, none, some, Text, if◌then◌else◌,
}
use stratodb.Error.{SPath, SdbError, SdbResult, ok, err, panic, unique_violation, ◌>>=◌}
use stratodb.Crates.{Crates}
use stratodb.Key.{Skey, skey_eq}
use stratodb.Key
use stratodb.Scalar.{Scalar}
use stratodb.Engine.TableKey.{TableKey, index}
use stratodb.Engine.TableValue.{TableValue, skey}
use stratodb.Engine.Backend.{ReadNodes, WriteNodes}
use stratodb.Engine.Archived.{Rkyv}
use stratodb.Index.Definition.{IndexColumn, IndexDef}
use stratodb.Index.Keys.{index_key}
use stratodb.Index.Pattern
use stratodb.Tree.Packed.{entity_leaf}

-- One registered index, of registry/entry.rs.
pub record IndexEntry : Type 0 where
  pub table : Text
  pub id : ℕ
  pub def : IndexDef

module _ ⦃crates : Crates⦄ ⦃rkyv : Rkyv⦄ where
  module _ (R : ReadNodes) where
    unfoldable pub column_scalar : R.Store → Skey → SPath → SdbResult Scalar
    unfolding entity_leaf
    column_scalar s entity column = entity_leaf R s entity column >>= λ found.
        ok (elim found [ some x ↦ x | none ↦ Scalar.null ])

    unfoldable pub column_scalars : R.Store → Skey → List IndexColumn → SdbResult (List Scalar)
    unfolding column_scalar
    column_scalars s entity [] = ok []
    column_scalars s entity (column ∷ columns) = column_scalar s entity column.path >>= λ x.
        column_scalars s entity columns >>= λ xs. ok (x ∷ xs)

    unfoldable pub entity_key : R.Store → ℕ → IndexDef → Skey → SdbResult (TableKey × TableValue)
    unfolding column_scalars index_key
    entity_key s id def entity =
        column_scalars s entity def.columns >>= λ values. ok (index_key id def values entity)

    unfoldable pub entity_keys :
        R.Store → IndexEntry → List Skey → SdbResult (List (TableKey × TableValue))
    unfolding entity_key
    entity_keys s entry [] = ok []
    entity_keys s entry (entity ∷ entities) = entity_key s entry.id entry.def entity >>= λ e.
        entity_keys s entry entities >>= λ rest. ok (e ∷ rest)

    unfoldable pub entries_for :
        R.Store → IndexEntry → SPath → SdbResult (List (TableKey × TableValue))
    unfolding entity_keys Pattern.parse Pattern.affected_entities
    entries_for s entry scope = Pattern.parse entry.def.pattern >>= λ pattern.
        Pattern.affected_entities R s pattern scope >>= entity_keys s entry

    -- The keys of the block of an index; the items behind it are not looked at.
    unfoldable pub block_item :
        ℕ → TableKey × TableValue → SdbResult (List TableKey) → SdbResult (List TableKey)
    block_item id (index entry_id cols entity, v) rest =
        if entry_id == id then (rest >>= λ keys. ok (index entry_id cols entity ∷ keys)) else ok []
    block_item id (k, v) rest = ok []

    unfoldable pub block : ℕ → List (SdbResult (TableKey × TableValue)) → SdbResult (List TableKey)
    unfolding block_item
    block id [] = ok []
    block id (item ∷ items) = let rest = block id items in item >>= λ e. block_item id e rest

    unfoldable pub block_from : R.Store → ℕ → TableKey → SdbResult (List TableKey)
    unfolding block
    block_from s id lower = R.scan_from s lower >>= block id

    -- `guard_unique`.
    unfoldable pub guard_unique : R.Store → TableKey → TableValue → Text → SdbResult (Unit {0})
    unfolding skey_eq
    guard_unique s k (skey entity) name = R.fetch s k >>= λ existing. elim existing [
      | some (skey other) ↦ if skey_eq other entity then ok tt else err (unique_violation name)
      | _ ↦ ok tt
    ]
    guard_unique s k _ name = ok tt
