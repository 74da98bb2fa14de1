-- ===== src/Db.antt =====
-- crates/stratodb/src/db/inner.rs: what all handles on one database file share. An `Arc` of a cache is
-- its number among the caches that were made; an atomic counter has 64 bits.
pub mod Versions
pub mod Schema
pub mod Sets
pub mod Table
use stratodb.Base.{
  ℕ, ◌+◌, ◌*◌, ◌%◌, ◌^◌, List, [], ◌∷◌, ◌++◌, length, false, ◌==◌, Option, none, some, Text,
  if◌then◌else◌,
}
use stratodb.Base.Dict.{Dict, lookup, insert}
use stratodb.Error.{SdbResult, ok, err, panic}
use stratodb.Crates.{Crates}
use stratodb.Cache.{Caches, PathCache, Mutex, locked}
use stratodb.Cache
use stratodb.Index.Maintenance.{IndexEntry}

abbrev pub path_cache_capacity : ℕ
path_cache_capacity = 256 * 1024

abbrev pub blob_cache_capacity : ℕ
blob_cache_capacity = 64 * 1024

-- `fetch_add(1, ..)` of an `AtomicU64`.
unfoldable pub add_one : ℕ → ℕ
add_one counter = (counter + 1) % 2 ^ 64

-- `CachedIndexSet`: a generation and a set.
abbrev pub IndexSets : Type 0
IndexSets = Dict (ℕ × List IndexEntry)

-- A set that was cached under the generation.
unfoldable pub current_set : ℕ → Option (ℕ × List IndexEntry) → Option (List IndexEntry)
current_set current none = none
current_set current (some (generation, set)) = if generation == current then some set else none

-- The second lock of `cached_indexes`, and what is returned.
unfoldable pub keep_set :
    Mutex IndexSets
    → ℕ
    → Text
    → SdbResult (List IndexEntry)
    → SdbResult (List IndexEntry) × Mutex IndexSets
unfolding locked insert
keep_set sets current table (ok set) =
    locked sets (λ cache. (set, insert cache table (current, set)))
keep_set sets current table (err e) = (err e, sets)
keep_set sets current table panic = (panic, sets)

-- The end of `cached_indexes`, by what the first lock gave.
unfoldable pub or_load :
    Mutex IndexSets
    → ℕ
    → Text
    → SdbResult (List IndexEntry)
    → SdbResult (Option (List IndexEntry))
    → SdbResult (List IndexEntry) × Mutex IndexSets
unfolding keep_set
or_load sets current table load (ok (some set)) = (ok set, sets)
or_load sets current table load (ok none) = keep_set sets current table load
or_load sets current table load (err e) = (err e, sets)
or_load sets current table load panic = (panic, sets)

-- `cached_indexes` from where it has loaded the counter. `load` is what loading would return.
unfoldable pub sets_at :
    Mutex IndexSets
    → ℕ
    → Text
    → SdbResult (List IndexEntry)
    → SdbResult (List IndexEntry) × Mutex IndexSets
unfolding locked lookup current_set or_load
sets_at sets current table load =
    let (found, sets') = locked sets (λ cache. (current_set current (lookup cache table), cache)) in
    or_load sets' current table load found

module _ ⦃crates : Crates⦄ (C : Caches) where
  pub record DbInner : Type 0 where
    pub generation : ℕ
    pub schema_gen : ℕ
    pub made : List (PathCache C)
    pub caches : Mutex (Dict ℕ)
    pub index_sets : Mutex IndexSets

  unfoldable pub new : DbInner
  new = record {
    generation = 0;
    schema_gen = 0;
    made = [];
    caches = record { poisoned = false; guarded = [] };
    index_sets = record { poisoned = false; guarded = [] };
  }

  -- `entry(..).or_insert_with(..)`: the number of the cache, the caches by name, and those made.
  unfoldable pub or_insert :
      Text → List (PathCache C) → Dict ℕ → Option ℕ → (ℕ × List (PathCache C)) × Dict ℕ
  unfolding insert Cache.new
  or_insert name made caches (some n) = ((n, made), caches)
  or_insert name made caches none = (
    (length made, made ++ Cache.new C path_cache_capacity blob_cache_capacity ∷ []),
    insert caches name (length made),
  )

  unfoldable pub put_made :
      DbInner → SdbResult (ℕ × List (PathCache C)) × Mutex (Dict ℕ) → SdbResult ℕ × DbInner
  put_made inner (ok (n, made), caches) = (ok n, record inner { made = made; caches = caches })
  put_made inner (err e, caches) = (err e, record inner { caches = caches })
  put_made inner (panic, caches) = (panic, record inner { caches = caches })

  unfoldable pub cache : DbInner → Text → SdbResult ℕ × DbInner
  unfolding locked lookup or_insert put_made
  cache inner name =
      put_made inner
        (locked inner.caches (λ caches. or_insert name inner.made caches (lookup caches name)))

  unfoldable pub cached_indexes :
      DbInner → Text → SdbResult (List IndexEntry) → SdbResult (List IndexEntry) × DbInner
  unfolding sets_at
  cached_indexes inner table load =
      let (result, sets) = sets_at inner.index_sets inner.schema_gen table load in
      (result, record inner { index_sets = sets })

  unfoldable pub bump_schema_gen : DbInner → DbInner
  unfolding add_one
  bump_schema_gen inner = record inner { schema_gen = add_one inner.schema_gen }
