-- ===== src/Db/Table/Created.antt =====
-- What `create_index` of crates/stratodb/src/table.rs leaves behind for `index_def`.
use stratodb.Base.{
  ℕ, ◌^◌, ◌<◌, ◌≡◌, refl, ap, subst, sym, List, length, Bool, Option, none, some, Text,
}
use stratodb.Error.{SdbResult, ok, err, panic}
use stratodb.Crates.{Crates}
use stratodb.Engine.Backend.{WriteNodes}
use stratodb.Engine.Archived.{Rkyv}
use stratodb.Index.Definition.{IndexDef}
use stratodb.Index.Definition.RoundTrip.{IsStored, IsDefinition}
use stratodb.Index.Maintenance.{IndexEntry}
use stratodb.Index.Registry.{MetaTable, RegistryRepository, encode, register, load, create}
use stratodb.Index.Registry.Stored.{IsRegistry}
use stratodb.Index.Registry.Creates.{Keeps, Finds, create-Finds}
use stratodb.Tree.Write.Monad.{World}
use stratodb.Cache.{Caches}
use stratodb.Db.{DbInner}
use stratodb.Db.Table.{
  Tables, Staged, back_fill, fill, new_entry, stage_create, commit, create_index, index_def,
}

module _ ⦃crates : Crates⦄ ⦃rkyv : Rkyv⦄ (T : MetaTable) (W : WriteNodes) (C : Caches) where
  -- A call that succeeds commits what it staged.
  commit-ok :
      {A : Type 0} (committed : SdbResult (Unit {0})) (before : Tables T W C) (inner : DbInner C)
      (p : Staged T W C A) (a : A)
      → (commit T W C committed before inner p).0 ≡ ok a
      → ((commit T W C committed before inner p).1.0 ≡ p.1) × (p.0 ≡ ok a)
  unfolding commit
  commit-ok (ok _) before inner (ok x, staged) a e = (refl, e)
  commit-ok (err x) before inner (ok y, staged) a e = cc
  commit-ok panic before inner (ok y, staged) a e = cc
  commit-ok (ok _) before inner (err x, staged) a e = cc
  commit-ok (err y) before inner (err x, staged) a e = cc
  commit-ok panic before inner (err x, staged) a e = cc
  commit-ok (ok _) before inner (panic, staged) a e = cc
  commit-ok (err y) before inner (panic, staged) a e = cc
  commit-ok panic before inner (panic, staged) a e = cc

  -- The back-fill leaves the registry alone.
  fill-meta :
      (meta : T.Meta) (world : World W) (found : SdbResult (Option IndexEntry))
      → (fill T W C meta world found).0 ≡ ok tt
      → ((fill T W C meta world found).1.meta ≡ meta)
        × ((entry : Option IndexEntry) × (found ≡ ok entry))
  unfolding back_fill
  fill-meta meta world (ok none) e = (refl, (none, refl))
  fill-meta meta world (ok (some entry)) e = (refl, (some entry, refl))
  fill-meta meta world (err x) e = cc
  fill-meta meta world panic e = cc

  new_entry-ok :
      (meta : T.Meta) (table : Text) (def : IndexDef) (created : SdbResult Bool)
      (entry : Option IndexEntry)
      → new_entry T W C meta table def created ≡ ok entry
      → (b : Bool) × (created ≡ ok b)
  new_entry-ok meta table def (ok b) entry e = (b, refl)
  new_entry-ok meta table def (err x) entry e = cc
  new_entry-ok meta table def panic entry e = cc

  index_def-Finds :
      (tables : Tables T W C) (table : Text) (def : IndexDef) (keeps : Keeps T)
      → Finds T keeps tables.meta table def
      → index_def T W C tables table def.name ≡ ok (some def)
  unfolding index_def
  index_def-Finds tables table def keeps (entry, found, same) =
      rw found (ap (λ d. ok (some d)) same)

  -- Where `create_index` succeeds, `index_def` returns the definition afterwards. The registry, its table
  -- name and the definition fit the format, also once the definition is in it, and an insert into the
  -- metadata table that succeeds is read back.
  pub index_def-create_index :
      (keeps : Keeps T) (committed : SdbResult (Unit {0})) (table : Text) (def : IndexDef)
      (tables : Tables T W C) (inner : DbInner C) (r : RegistryRepository)
      → load T tables.meta ≡ ok r
      → IsRegistry r
      → IsStored table
      → IsDefinition def
      → ((r' : RegistryRepository) (stored : List ℕ)
          → register r table def ≡ ok (some r')
          → encode r' ≡ ok stored
          → length stored < 2 ^ 64)
      → (create_index T W C committed table def tables inner).0 ≡ ok tt
      → index_def T W C (create_index T W C committed table def tables inner).1.0 table def.name
        ≡ ok (some def)
  unfolding create_index stage_create
  index_def-create_index keeps committed table def tables inner r loaded ok_r ok_table ok_def small
        e =
      let (kept, staged) =
        commit-ok committed tables inner (stage_create T W C table def tables) tt e in
      let made = create T tables.meta table def in
      let (same, (entry, found)) =
        fill-meta made.1 tables.world (new_entry T W C made.1 table def made.0) staged in
      let (b, created) = new_entry-ok made.1 table def made.0 entry found in
      let there =
        create-Finds T keeps r table def ok_r ok_table ok_def small tables.meta b loaded created in
      index_def-Finds _ table def keeps (
        subst (λ t. Finds T keeps t.meta table def) (sym kept)
          (subst (λ m. Finds T keeps m table def) (sym same) there))
