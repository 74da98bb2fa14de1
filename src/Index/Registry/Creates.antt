-- ===== src/Index/Registry/Creates.antt =====
-- What `create` of crates/stratodb/src/index/registry/repository.rs leaves behind for `lookup`.
use stratodb.Base.{
  ℕ, ◌+◌, ◌^◌, ◌<◌, ◌≡◌, refl, sym, ap, ◌∙◌, inl, inr, List, [], ◌∷◌, ◌++◌, All-append, length,
  Bool, true, Option, none, some, not_some, Option-cases, Bool-cases, Text, ltb,
}
use stratodb.Error.{SdbResult, ok, err, panic, corrupt, schema_mismatch, ◌>>=◌}
use stratodb.Index.Definition.{IndexDef}
use stratodb.Index.Definition.RoundTrip.{IsStored, IsDefinition}
use stratodb.Index.Pattern.Matches.{bind_inv}
use stratodb.Index.Maintenance.{IndexEntry}
use stratodb.Index.Registry.{
  MetaTable, RegistryRepository, decode, encode, is_named, find, def_eq, register, load,
  insert_encoded, store, store_new, lookup, create,
}
use stratodb.Index.Registry.Equality.{def_eq_sound, is_named_refl}
use stratodb.Index.Registry.Stored.{IsEntry, IsRegistry, decode_registry-encode}
use stratodb.Index.Registry.Ids.{register_new}

find-append_some :
    (t n : Text) (entries : List IndexEntry) (entry : IndexEntry)
    → find t n entries ≡ none
    → is_named t n entry ≡ true
    → find t n (entries ++ entry ∷ []) ≡ some entry
unfolding find
find-append_some t n [] entry h same = rw same refl
find-append_some t n (x ∷ entries) entry h same = elim (Bool-cases (is_named t n x)) [
  | inl here ↦ absurd (not_some (sym (rw here at h)))
  | inr other ↦ rw other (find-append_some t n entries entry (rw other at h) same)
]

register_kept :
    (r : RegistryRepository) (table : Text) (def : IndexDef)
    → register r table def ≡ ok none
    → (entry : IndexEntry) × (find table def.name r.entries ≡ some entry) × (entry.def ≡ def)
unfolding register
register_kept r table def e = elim (Option-cases (find table def.name r.entries)) [
  | inr (entry, found) ↦ elim (Bool-cases (def_eq entry.def def)) [
    | inl same ↦ (entry, found, def_eq_sound entry.def def same)
    | inr differ ↦
        let failed : err schema_mismatch ≡ ok none = rw (found, register, differ) at e in cc
  ]
  | inl free ↦ elim (Bool-cases (ltb (r.next_id + 1) (2 ^ 32))) [
    | inl fits ↦ absurd (not_none (rw (free, register, fits) at e))
    | inr full ↦ let failed : err corrupt ≡ ok none = rw (free, register, full) at e in cc
  ]
]
  where
    not_none : {r' : RegistryRepository} → ok (some r') ≡ ok none → ⊥
    not_none h = cc

-- The registry that `register` returns can be stored, and has the definition.
pub register-IsRegistry :
    (r r' : RegistryRepository) (table : Text) (def : IndexDef)
    → IsRegistry r
    → IsStored table
    → IsDefinition def
    → register r table def ≡ ok (some r')
    → IsRegistry r'
      × (find table def.name r'.entries
          ≡ some (record { table = table; id = r.next_id; def = def }))
register-IsRegistry r r' table def h t d e =
    let (free, fits, same) = register_new r r' table def e in
    rw same (
      record {
        next_fits = fits;
        entries_ok = All-append IsEntry r.entries _ h.entries_ok ((t, h.next_fits, d), tt);
      },
      find-append_some table def.name r.entries _ free
          (is_named_refl (record { table = table; id = r.next_id; def = def })),
    )

-- A table in which an insert that succeeds is read back.
pub record Keeps (T : MetaTable) : Type 0 where
  pub get-insert :
      (meta : T.Meta) (stored : List ℕ)
      → (T.insert meta stored).0 ≡ ok tt
      → T.get (T.insert meta stored).1 ≡ ok (some stored)

module _ (T : MetaTable) (keeps : Keeps T) where
  -- A search in a registry that was loaded.
  pub lookup-find :
      (meta : T.Meta) (r : RegistryRepository) (table name : Text)
      → load T meta ≡ ok r
      → lookup T meta table name ≡ ok (find table name r.entries)
  unfolding lookup
  lookup-find meta r table name e = rw e refl

  load-insert_encoded :
      (meta : T.Meta) (r : RegistryRepository) (result b : Bool) (made : SdbResult (List ℕ))
      → ((stored : List ℕ) → made ≡ ok stored → decode stored ≡ ok r)
      → (insert_encoded T meta result made).0 ≡ ok b
      → load T (insert_encoded T meta result made).1 ≡ ok r
  unfolding load insert_encoded
  load-insert_encoded meta r result b (ok stored) back e =
      let (_, inserted, _) = bind_inv (T.insert meta stored).0 _ b e in
      rw (keeps.get-insert meta stored inserted) (back stored refl)
  load-insert_encoded meta r result b (err x) back e = cc
  load-insert_encoded meta r result b panic back e = cc

  -- The definition is there.
  abbrev pub Finds : T.Meta → Text → IndexDef → Type 0
  Finds meta table def =
      (entry : IndexEntry) × (lookup T meta table def.name ≡ ok (some entry)) × (entry.def ≡ def)

  module _ (r : RegistryRepository) (table : Text) (def : IndexDef) (ok_r : IsRegistry r)
      (ok_table : IsStored table) (ok_def : IsDefinition def)
      (small : (r' : RegistryRepository) (stored : List ℕ)
        → register r table def ≡ ok (some r')
        → encode r' ≡ ok stored
        → length stored < 2 ^ 64) where
    store_new-Finds :
        (meta : T.Meta) (b : Bool) (made : SdbResult (Option RegistryRepository))
        → load T meta ≡ ok r
        → register r table def ≡ made
        → (store_new T meta made).0 ≡ ok b
        → Finds (store_new T meta made).1 table def
    unfolding store_new store
    store_new-Finds meta b (ok none) loaded e h =
        let (entry, found, same) = register_kept r table def e in
        (entry, lookup-find meta r table def.name loaded ∙ ap ok found, same)
    store_new-Finds meta b (ok (some r')) loaded e h =
        let (whole, found) = register-IsRegistry r r' table def ok_r ok_table ok_def e in
        let back : (stored : List ℕ) → encode r' ≡ ok stored → decode stored ≡ ok r' =
          λ stored made. decode_registry-encode r' stored whole made (small r' stored e made) in
        (
          record { table = table; id = r.next_id; def = def },
          lookup-find _ r' table def.name (load-insert_encoded meta r' true b (encode r') back h)
              ∙ ap ok found,
          refl,
        )
    store_new-Finds meta b (err x) loaded e h = cc
    store_new-Finds meta b panic loaded e h = cc

    -- Where `create` succeeds, whether it stores a new definition or finds the same one, `lookup` finds
    -- the definition afterwards, in a registry that fits the format.
    pub create-Finds :
        (meta : T.Meta) (b : Bool)
        → load T meta ≡ ok r
        → (create T meta table def).0 ≡ ok b
        → Finds (create T meta table def).1 table def
    unfolding create
    create-Finds meta b loaded h =
        store_new-Finds meta b (load T meta >>= λ x. register x table def) loaded (rw loaded refl) h
