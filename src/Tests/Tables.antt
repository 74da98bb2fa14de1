-- ===== src/Tests/Tables.antt =====
-- A definition that is registered in a database without indexes.
use stratodb.Base
use stratodb.Base.{
  ℕ, ◌<◌, ◌^◌, List, length, ap, sym, ◌∙◌, some-inj, be_bytes, be_value, split, contains, ◌≡◌, refl,
  [], ◌∷◌, none, some, text_eq, is_utf8, arith,
}
use stratodb.Error.{ok}
use stratodb.Index.Pattern.Matches.{ok-inj}
use stratodb.Index.Registry.{RegistryRepository, empty, encode, register, find, load}
use stratodb.Db
use stratodb.Db.Table.{Tables, commit, create_index, stage_create, back_fill, index_def}
use stratodb.Db.Table.Created.{index_def-create_index}
use stratodb.Tests.Toy.{toy_crates}
use stratodb.Tests.Store.{toy_rkyv}
use stratodb.Tests.Lru.{toy_caches}
use stratodb.Tests.Queries.{three_entries}
use stratodb.Tests.Indexes.{by_a, by_a-IsDefinition}
use stratodb.Tests.Registries.{registry, stored, cell, cell-Keeps, filled-Fits, stored_encoded}

abbrev tables : Tables cell three_entries toy_caches
tables = record { meta = some stored; world = record { store = tt; seed = 0 } }

-- A database without indexes.
abbrev no_tables : Tables cell three_entries toy_caches
no_tables = record { meta = none; world = record { store = tt; seed = 0 } }

first_registered : register empty (116 ∷ []) by_a ≡ ok (some registry)
unfolding register find
first_registered = refl

first_loaded : load cell none ≡ ok empty
unfolding load
first_loaded = refl

first_succeeds :
    (create_index cell three_entries toy_caches
      (ok tt)
      (116 ∷ [])
      by_a
      no_tables
      (Db.new toy_caches)).0
    ≡ ok tt
unfolding create_index stage_create commit back_fill be_bytes be_value is_utf8 split text_eq
    Base.find contains
first_succeeds = refl

stored-Fits :
    (r : RegistryRepository) (bytes : List ℕ)
    → register empty (116 ∷ []) by_a ≡ ok (some r)
    → encode r ≡ ok bytes
    → length bytes < 2 ^ 64
stored-Fits r bytes e made =
    let is_registry : registry ≡ r = some-inj (ok-inj (sym first_registered ∙ e)) in
    filled-Fits bytes
      (ap (λ x. ok (some x)) (ok-inj (sym stored_encoded ∙ (ap encode is_registry ∙ made))))

index_def-create_index_example :
    index_def cell three_entries toy_caches
      (create_index cell three_entries toy_caches
        (ok tt)
        (116 ∷ [])
        by_a
        no_tables
        (Db.new toy_caches)).1.0
      (116 ∷ [])
      (105 ∷ [])
    ≡ ok (some by_a)
unfolding is_utf8
index_def-create_index_example =
    index_def-create_index cell three_entries toy_caches cell-Keeps (ok tt) (116 ∷ []) by_a
      no_tables (Db.new toy_caches) empty first_loaded
      (record { next_fits = omega arith; entries_ok = tt }) (refl, omega arith) by_a-IsDefinition
      stored-Fits first_succeeds
