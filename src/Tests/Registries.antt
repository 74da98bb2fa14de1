-- ===== src/Tests/Registries.antt =====
-- Registries of indexes, stored and changed.
use stratodb.Base.{
  ℕ, ◌≡◌, refl, List, [], ◌∷◌, Option, some, none, some-inj, true, is_utf8, be_bytes, text_eq,
  arith,
}
use stratodb.Error.{ok}
use stratodb.Codec.{put_bytes, put_u32}
use stratodb.Spath.Display.{show}
use stratodb.Index.Definition
use stratodb.Index.Definition.{IndexDef, put_columns, to_byte}
use stratodb.Index.Maintenance.{IndexEntry}
use stratodb.Index.Registry.{
  MetaTable, RegistryRepository, encode, decode, put_entries, is_named, find, load, lookup, has,
  register, create, delete, store_new, store, insert_encoded, take_named,
}
use stratodb.Index.Registry.Stored.{IsRegistry, decode_registry-encode}
use stratodb.Index.Registry.Names.{has-lookup}
use stratodb.Index.Pattern.Matches.{ok-inj}
use stratodb.Index.Registry.Creates.{Keeps}
use stratodb.Index.Registry.Runs.{Fits, start, created, deleted, IsFreshIn, Reach-IsFreshIn}
use stratodb.Tests.Indexes.{by_a, by_a-IsDefinition}

abbrev pub entry : IndexEntry
entry = record { table = 116 ∷ []; id = 0; def = by_a }

abbrev pub registry : RegistryRepository
registry = record { next_id = 1; entries = entry ∷ [] }

abbrev pub stored : List ℕ
stored = put_entries (put_u32 (put_u32 [] 1) 1) (entry ∷ [])

pub registry-IsRegistry : IsRegistry registry
unfolding is_utf8
registry-IsRegistry = record {
  next_fits = omega arith;
  entries_ok = (((refl, omega arith), omega arith, by_a-IsDefinition), tt);
}

pub stored-registry : decode stored ≡ ok registry
unfolding encode put_entries Definition.encode put_bytes put_u32 put_columns to_byte be_bytes show
stored-registry = decode_registry-encode registry stored registry-IsRegistry refl (omega arith)

decode_registry-encode_example : decode stored ≡ ok registry
unfolding encode put_entries Definition.encode put_bytes put_u32 put_columns to_byte be_bytes show
decode_registry-encode_example =
    decode_registry-encode registry stored registry-IsRegistry refl (omega arith)

pub stored_encoded : encode registry ≡ ok stored
unfolding encode
stored_encoded = refl

-- A metadata table that is the bytes at the key.
abbrev pub cell : MetaTable
cell = record {
  Meta = Option (List ℕ);
  get = λ meta. ok meta;
  insert = λ meta blob. (ok tt, some blob);
}

stored-lookup : lookup cell (some stored) (116 ∷ []) (105 ∷ []) ≡ ok (some entry)
unfolding lookup load find is_named text_eq
stored-lookup = rw stored-registry refl

has-lookup_example : has cell (some stored) (116 ∷ []) (105 ∷ []) ≡ ok true
has-lookup_example = has-lookup cell (some stored) (116 ∷ []) (105 ∷ []) (some entry) stored-lookup

pub cell-Keeps : Keeps cell
cell-Keeps = record { get-insert = λ meta blob e. refl }

-- The registry is filled, and emptied again.
created_first : create cell none (116 ∷ []) by_a ≡ (ok true, some stored)
unfolding create load register find store_new store insert_encoded encode
created_first = refl

abbrev emptied : List ℕ
emptied = put_u32 (put_u32 [] 1) 0

deleted_first : delete cell (some stored) (116 ∷ []) (105 ∷ []) ≡ (ok (some entry), some emptied)
unfolding delete load take_named is_named text_eq store insert_encoded encode put_entries
deleted_first = rw (delete, load, stored-registry) refl

pub filled-Fits : Fits cell cell-Keeps (some stored)
unfolding put_entries Definition.encode put_bytes put_u32 put_columns to_byte be_bytes show
filled-Fits bs e = rw (← some-inj (ok-inj e)) (omega arith)

emptied-Fits : Fits cell cell-Keeps (some emptied)
unfolding put_u32 be_bytes
emptied-Fits bs e = rw (← some-inj (ok-inj e)) (omega arith)

Reach-IsFreshIn_example : IsFreshIn cell cell-Keeps (some emptied) (0 ∷ [])
unfolding is_utf8
Reach-IsFreshIn_example = Reach-IsFreshIn cell cell-Keeps (
    deleted
      (created (start none refl) (116 ∷ []) by_a (some stored) entry (refl, omega arith)
        by_a-IsDefinition created_first stored-lookup filled-Fits)
      (116 ∷ []) (105 ∷ []) (some entry) (some emptied) deleted_first emptied-Fits)
