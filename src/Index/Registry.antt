-- ===== src/Index/Registry.antt =====
-- crates/stratodb/src/index/registry/: the registered indexes of all tables, under one key of the
-- metadata table. The table of redb is an interface; the functions of interface.rs pass on to those
-- of the repository.
pub mod Stored
pub mod Names
pub mod Entries
pub mod Equality
pub mod Creates
pub mod Ids
pub mod Runs
use stratodb.Base.{
  ℕ, zero, suc, ◌+◌, ◌^◌, List, [], ◌∷◌, length, Bool, true, false, ◌&&◌, not, Option, none, some,
  ◌==◌, ltb, Text, text_eq, from_utf8, if◌then◌else◌, ◌++◌ as append,
}
use stratodb.Error.{Segment, SdbResult, ok, err, panic, corrupt, schema_mismatch}
use stratodb.Error
use stratodb.Codec.{put_u32, put_bytes, Decode, ◌>>=◌, pure, lift, u32, bytes, new, Reader}
use stratodb.Scalar.Codec.{or_corrupt}
use stratodb.Index.Definition.{IndexColumn, IndexDef, is_desc, read_string, decode_name}
use stratodb.Index.Definition
use stratodb.Index.Pattern.{seg_eq}
use stratodb.Index.Maintenance.{IndexEntry}

-- The metadata table, at the key of the registry.
pub record MetaTable : Type 1 where
  pub Meta : Type 0
  pub get : Meta → SdbResult (Option (List ℕ))
  pub insert : Meta → List ℕ → SdbResult (Unit {0}) × Meta

pub record RegistryRepository : Type 0 where
  pub next_id : ℕ
  pub entries : List IndexEntry

-- `default`.
abbrev pub empty : RegistryRepository
empty = record { next_id = 0; entries = [] }

unfoldable pub read_entry : Decode IndexEntry
unfolding read_string u32 Definition.decode ◌>>=◌ pure
read_entry = read_string >>= λ table.
    u32 >>= λ id. Definition.decode >>= λ def. pure (record { table = table; id = id; def = def })

-- The loop over the count of entries.
unfoldable pub read_entries : ℕ → Decode (List IndexEntry)
unfolding read_entry ◌>>=◌ pure
read_entries zero = pure []
read_entries (suc count) =
    read_entry >>= λ entry. read_entries count >>= λ entries. pure (entry ∷ entries)

unfoldable pub read_registry : Decode RegistryRepository
unfolding u32 read_entries ◌>>=◌ pure
read_registry = u32 >>= λ next_id. u32 >>= λ count.
    read_entries count >>= λ entries. pure (record { next_id = next_id; entries = entries })

unfoldable pub decode : List ℕ → SdbResult RegistryRepository
unfolding read_registry new
decode blob = Error.◌>>=◌ (read_registry (new blob)) (λ p. ok p.0)

unfoldable pub put_entries : List ℕ → List IndexEntry → List ℕ
unfolding put_bytes put_u32 Definition.encode
put_entries buf [] = buf
put_entries buf (entry ∷ entries) =
    put_entries (Definition.encode (put_u32 (put_bytes buf entry.table) entry.id) entry.def) entries

unfoldable pub encode : RegistryRepository → SdbResult (List ℕ)
unfolding put_u32 put_entries
encode registry =
    if ltb (length registry.entries) (2 ^ 32)
    then ok (
        put_entries (put_u32 (put_u32 [] registry.next_id) (length registry.entries))
          registry.entries)
    else err corrupt

-- `==` of the derived `PartialEq`s.
unfoldable pub segments_eq : List Segment → List Segment → Bool
unfolding seg_eq
segments_eq [] [] = true
segments_eq (a ∷ xs) (b ∷ ys) = seg_eq a b && segments_eq xs ys
segments_eq _ _ = false

unfoldable pub bool_eq : Bool → Bool → Bool
bool_eq true b = b
bool_eq false b = not b

unfoldable pub columns_eq : List IndexColumn → List IndexColumn → Bool
unfolding segments_eq bool_eq is_desc
columns_eq [] [] = true
columns_eq (a ∷ xs) (b ∷ ys) =
    segments_eq a.path.segments b.path.segments
    && (bool_eq (is_desc a.direction) (is_desc b.direction) && columns_eq xs ys)
columns_eq _ _ = false

unfoldable pub def_eq : IndexDef → IndexDef → Bool
unfolding columns_eq bool_eq
def_eq a b =
    text_eq a.name b.name
    && (text_eq a.pattern b.pattern
        && (columns_eq a.columns b.columns && bool_eq a.unique b.unique))

-- The closure of `find` and `position`.
unfoldable pub is_named : Text → Text → IndexEntry → Bool
is_named table name entry = text_eq entry.table table && text_eq entry.def.name name

unfoldable pub find : Text → Text → List IndexEntry → Option IndexEntry
unfolding is_named
find table name [] = none
find table name (entry ∷ entries) =
    if is_named table name entry then some entry else find table name entries

unfoldable pub on_table : Text → List IndexEntry → List IndexEntry
on_table table [] = []
on_table table (entry ∷ entries) =
    let rest = on_table table entries in if text_eq entry.table table then entry ∷ rest else rest

-- `position` and `remove`: the entry with those that stay.
unfoldable pub take_named : Text → Text → List IndexEntry → Option (IndexEntry × List IndexEntry)
unfolding is_named
take_named table name [] = none
take_named table name (entry ∷ entries) =
    let rest = take_named table name entries in
    if is_named table name entry
    then some (entry, entries)
    else elim rest [ none ↦ none | some (found, others) ↦ some (found, entry ∷ others) ]

-- The body of `create` between `load` and `store`: `none` where there is nothing to store.
unfoldable pub register :
    RegistryRepository → Text → IndexDef → SdbResult (Option RegistryRepository)
unfolding find def_eq
register registry table def = elim (find table def.name registry.entries) [
  | some entry ↦ if def_eq entry.def def then ok none else err schema_mismatch
  | none ↦
      if ltb (registry.next_id + 1) (2 ^ 32)
      then ok (
          some (record {
            next_id = registry.next_id + 1;
            entries =
                append registry.entries
                  (record { table = table; id = registry.next_id; def = def } ∷ []);
          }))
      else err corrupt
]

-- One entry of the loop of `has`: whether it is the one that is looked for.
unfoldable pub skip_entry : Text → Text → Decode Bool
unfolding bytes u32 decode_name ◌>>=◌ lift pure
skip_entry table name = bytes >>= λ bs. lift (or_corrupt (from_utf8 bs)) >>= λ entry_table.
    u32 >>= λ _.
    decode_name >>= λ entry_name. pure (text_eq entry_table table && text_eq entry_name name)

unfoldable pub seek : ℕ → Text → Text → Decode Bool
unfolding skip_entry ◌>>=◌ pure
seek zero table name = pure false
seek (suc count) table name =
    skip_entry table name >>= λ found. if found then pure true else seek count table name

unfoldable pub seek_in : Text → Text → Decode Bool
unfolding u32 seek ◌>>=◌
seek_in table name = u32 >>= λ _. u32 >>= λ count. seek count table name

module _ (T : MetaTable) where
  unfoldable pub load : T.Meta → SdbResult RegistryRepository
  unfolding decode
  load meta =
      Error.◌>>=◌ (T.get meta) (λ found. elim found [ some blob ↦ decode blob | none ↦ ok empty ])

  -- `result`, once the encoded registry is in the table.
  unfoldable pub insert_encoded :
      {A : Type 0} → T.Meta → A → SdbResult (List ℕ) → SdbResult A × T.Meta
  insert_encoded meta result (ok blob) =
      let (inserted, meta') = T.insert meta blob in (Error.◌>>=◌ inserted (λ _. ok result), meta')
  insert_encoded meta result (err e) = (err e, meta)
  insert_encoded meta result panic = (panic, meta)

  unfoldable pub store : {A : Type 0} → T.Meta → RegistryRepository → A → SdbResult A × T.Meta
  unfolding encode insert_encoded
  store meta registry result = insert_encoded meta result (encode registry)

  unfoldable pub lookup : T.Meta → Text → Text → SdbResult (Option IndexEntry)
  unfolding load find
  lookup meta table name = Error.◌>>=◌ (load meta) (λ r. ok (find table name r.entries))

  unfoldable pub for_table : T.Meta → Text → SdbResult (List IndexEntry)
  unfolding load on_table
  for_table meta table = Error.◌>>=◌ (load meta) (λ r. ok (on_table table r.entries))

  unfoldable pub has : T.Meta → Text → Text → SdbResult Bool
  unfolding seek_in new
  has meta table name = Error.◌>>=◌ (T.get meta) (λ found. elim found [
    | some blob ↦ Error.◌>>=◌ (seek_in table name (new blob)) (λ p. ok p.0)
    | none ↦ ok false
  ])

  unfoldable pub delete : T.Meta → Text → Text → SdbResult (Option IndexEntry) × T.Meta
  unfolding load take_named store
  delete meta table name = elim (load meta) [
    | ok r ↦ elim (take_named table name r.entries) [
      | none ↦ (ok none, meta)
      | some (entry, others) ↦ store meta (record r { entries = others }) (some entry)
    ]
    | err e ↦ (err e, meta)
    | panic ↦ (panic, meta)
  ]

  -- What `register` returned is stored.
  unfoldable pub store_new :
      T.Meta → SdbResult (Option RegistryRepository) → SdbResult Bool × T.Meta
  unfolding store
  store_new meta (ok none) = (ok false, meta)
  store_new meta (ok (some r)) = store meta r true
  store_new meta (err e) = (err e, meta)
  store_new meta panic = (panic, meta)

  unfoldable pub create : T.Meta → Text → IndexDef → SdbResult Bool × T.Meta
  unfolding load register store_new
  create meta table def = store_new meta (Error.◌>>=◌ (load meta) (λ r. register r table def))
