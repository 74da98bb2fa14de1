-- ===== src/Db/Table.antt =====
-- The index definitions of crates/stratodb/src/table.rs. A call works on the registry and the data of a
-- write transaction of redb; the argument `commit` is what redb's commit returns, and the committed
-- state stays as it was where the call or the commit fails. The names of a derived type are an
-- argument. The loop of `maintenance::delete_all` and `insert` is in Index/Maintenance/Update.
pub mod Created
use stratodb.Base.{
  ℕ, suc, zero, ◌+◌, List, [], ◌∷◌, Bool, true, false, Option, none, some, Text, if◌then◌else◌,
}
use stratodb.Error.{SPath, SdbResult, ok, err, panic, ◌>>=◌}
use stratodb.Crates.{Crates}
use stratodb.Spath
use stratodb.Engine.Backend.{WriteNodes}
use stratodb.Engine.Archived.{Rkyv}
use stratodb.Index.Definition.{IndexDef}
use stratodb.Index.Maintenance.{IndexEntry}
use stratodb.Index.Maintenance.Update.{insert, delete_all}
use stratodb.Index.Registry.{MetaTable, lookup, has, create, delete}
use stratodb.Tree.Write.Monad.{World}
use stratodb.Cache.{Caches}
use stratodb.Db.{DbInner, bump_schema_gen}

module _ ⦃crates : Crates⦄ ⦃rkyv : Rkyv⦄ (T : MetaTable) (W : WriteNodes) (C : Caches) where
  -- The registry and the data table.
  pub record Tables : Type 0 where
    pub meta : T.Meta
    pub world : World W

  abbrev pub Staged : Type 0 → Type 0
  Staged A = SdbResult A × Tables

  -- The back-fill of an index that is new.
  unfoldable pub back_fill : T.Meta → World W → Option IndexEntry → Staged (Unit {0})
  unfolding insert Spath.root
  back_fill meta world none = (ok tt, record { meta = meta; world = world })
  back_fill meta world (some entry) =
      let (result, world') = insert W (entry ∷ []) Spath.root world in
      (result, record { meta = meta; world = world' })

  -- What a step on the registry returned, and the rest.
  abbrev pub fill : T.Meta → World W → SdbResult (Option IndexEntry) → Staged (Unit {0})
  fill meta world (ok entry) = back_fill meta world entry
  fill meta world (err e) = (err e, record { meta = meta; world = world })
  fill meta world panic = (panic, record { meta = meta; world = world })

  -- The entry of a definition that was just registered.
  abbrev pub new_entry : T.Meta → Text → IndexDef → SdbResult Bool → SdbResult (Option IndexEntry)
  new_entry meta table def (ok true) = lookup T meta table def.name
  new_entry meta table def (ok false) = ok none
  new_entry meta table def (err e) = err e
  new_entry meta table def panic = panic

  unfoldable pub stage_create : Text → IndexDef → Tables → Staged (Unit {0})
  unfolding create lookup back_fill
  stage_create table def tables =
      let (created, meta) = create T tables.meta table def in
      fill meta tables.world (new_entry meta table def created)

  -- `create` behind `has`, whatever it returns.
  abbrev pub registered : T.Meta → Text → IndexDef → SdbResult Bool → SdbResult (Option IndexEntry)
  registered meta table def (ok created) = lookup T meta table def.name
  registered meta table def (err e) = err e
  registered meta table def panic = panic

  unfoldable pub stage_ensure : Text → IndexDef → Tables → Staged (Unit {0})
  unfolding has create lookup back_fill
  stage_ensure table def tables =
      let (created, meta) = create T tables.meta table def in
      elim (has T tables.meta table def.name) [
        | ok true ↦ (ok tt, tables)
        | ok false ↦ fill meta tables.world (registered meta table def created)
        | err e ↦ (err e, tables)
        | panic ↦ (panic, tables)
      ]

  -- The purge of the entries of an index that was removed.
  unfoldable pub purge : T.Meta → World W → SdbResult (Option IndexEntry) → Staged Bool
  unfolding delete_all
  purge meta world (ok none) = (ok false, record { meta = meta; world = world })
  purge meta world (ok (some entry)) =
      let (result, world') = delete_all W entry world in
      (result >>= λ _. ok true, record { meta = meta; world = world' })
  purge meta world (err e) = (err e, record { meta = meta; world = world })
  purge meta world panic = (panic, record { meta = meta; world = world })

  unfoldable pub stage_delete : Text → Text → Tables → Staged Bool
  unfolding delete purge
  stage_delete table name tables =
      let (removed, meta) = delete T tables.meta table name in purge meta tables.world removed

  -- The commit, and the bump of the counter behind it.
  unfoldable pub commit :
      {A : Type 0}
      → SdbResult (Unit {0})
      → Tables
      → DbInner C
      → Staged A
      → SdbResult A × (Tables × DbInner C)
  unfolding bump_schema_gen
  commit (ok _) before inner (ok a, staged) = (ok a, (staged, bump_schema_gen C inner))
  commit (err e) before inner (ok a, staged) = (err e, (before, inner))
  commit panic before inner (ok a, staged) = (panic, (before, inner))
  commit _ before inner (err e, staged) = (err e, (before, inner))
  commit _ before inner (panic, staged) = (panic, (before, inner))

  module _ (committed : SdbResult (Unit {0})) where
    unfoldable pub create_index :
        Text → IndexDef → Tables → DbInner C → SdbResult (Unit {0}) × (Tables × DbInner C)
    unfolding stage_create commit
    create_index table def tables inner =
        commit committed tables inner (stage_create table def tables)

    unfoldable pub ensure_index :
        Text → IndexDef → Tables → DbInner C → SdbResult (Unit {0}) × (Tables × DbInner C)
    unfolding stage_ensure commit
    ensure_index table def tables inner =
        commit committed tables inner (stage_ensure table def tables)

    unfoldable pub delete_index :
        Text → Text → Tables → DbInner C → SdbResult Bool × (Tables × DbInner C)
    unfolding stage_delete commit
    delete_index table name tables inner =
        commit committed tables inner (stage_delete table name tables)

  unfoldable pub index_def : Tables → Text → Text → SdbResult (Option IndexDef)
  unfolding lookup
  index_def tables table name = lookup T tables.meta table name >>= λ found. elim found [
    | some entry ↦ ok (some entry.def)
    | none ↦ ok none
  ]

  unfoldable pub has_index : Tables → Text → Text → SdbResult Bool
  unfolding has
  has_index tables table name = has T tables.meta table name
