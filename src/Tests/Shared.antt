-- ===== src/Tests/Shared.antt =====
-- Interleavings of threads on the state of one database.
use stratodb.Base.{ℕ, ◌≡◌, ◌%◌, ◌^◌, refl, arith, [], ◌∷◌, List, Text, false}
use stratodb.Error.{ok}
use stratodb.Index.Definition.{IndexDef}
use stratodb.Index.Maintenance.{IndexEntry}
use stratodb.Db
use stratodb.Db.Versions.{
  Shared, Reader, locked, begun, loaded, reading, Writer, Step, reads, write_lock, commit, bump,
  drop_guard, commit_indexes, lock, begin_read, load, drop, set_reader, reading_version,
}
use stratodb.Db.Versions
use stratodb.Db.Schema
use stratodb.Db.Schema.{Schema}
use stratodb.Db.Sets.{Shows, late, cached_indexes-registry, cached_indexes_stale}
use stratodb.Tests.Toy.{toy_crates}
use stratodb.Tests.Lru.{toy_caches}

-- One commit, and a state with readers after it.
abbrev committed_once : ℕ → (ℕ → Reader) → Shared
committed_once catalog readers = record {
  version = 1;
  catalog = catalog;
  generation = 1;
  writer = Writer.idle;
  readers = readers;
}

abbrev all_idle : ℕ → Reader
all_idle i = Reader.idle

first_commit : Versions.Reach (committed_once 0 all_idle)
unfolding Db.add_one
first_commit =
    Versions.next
      (Versions.next
        (Versions.next (Versions.next Versions.start (write_lock refl (λ i h. h))) (commit refl))
        (bump refl))
      (drop_guard refl)

abbrev begins : ℕ → (ℕ → Reader) → ℕ → ℕ → Reader
begins c readers i =
    set_reader
      (set_reader (set_reader (set_reader readers i Reader.locked) i (begun 1 c)) i (loaded 1 c 1))
      i (reading 1 c 1)

-- Two threads that begin a read, with a commit of index definitions between them.
both_read : Versions.Reach (committed_once 1 (begins 1 (begins 0 all_idle 0) 1))
unfolding set_reader
both_read =
    let one =
      Versions.next
        (Versions.next
          (Versions.next (Versions.next first_commit (reads 0 (lock refl))) (reads 0 begin_read))
          (reads 0 load))
        (reads 0 drop) in
    let between = Versions.next one (commit_indexes (λ e. cc)) in
    Versions.next
      (Versions.next
        (Versions.next (Versions.next between (reads 1 (lock refl))) (reads 1 begin_read))
        (reads 1 load))
      (reads 1 drop)

reading_version_example : (◌≡◌ {A = ℕ} 1 (1 % 2 ^ 64)) × (◌≡◌ {A = ℕ} 1 1)
unfolding set_reader
reading_version_example =
    reading_version both_read 0 1 1 1 0 1 1 refl refl (omega arith) (omega arith)

abbrev by_name : IndexDef
by_name = record { name = 110 ∷ []; pattern = 117 ∷ []; columns = []; unique = false }

abbrev before : Text → List IndexEntry
before table = []

abbrev after : Text → List IndexEntry
after table = record { table = 116 ∷ []; id = 0; def = by_name } ∷ []

-- A handle that shows the index sets of a state.
abbrev handle : Schema → Db.DbInner toy_caches
handle s = record (Db.new toy_caches) { index_sets = s.index_sets; schema_gen = s.schema_gen }

-- The counter was bumped, after a write transaction had cached its set.
abbrev cleared : Schema
cleared = record (late before after []) { schema_gen = Db.add_one 0; unbumped = 0 }

cleared-Reach : Schema.Reach before cleared
cleared-Reach =
    Schema.next
      (Schema.next (Schema.next Schema.start (Schema.use_set 0 [] (ok []) (omega arith) refl))
        (Schema.commit after))
      (Schema.bump 0 refl (omega arith))

cached_indexes-registry_example :
    (Db.cached_indexes toy_caches (handle cleared) [] (ok (after []))).0 ≡ ok (after [])
cached_indexes-registry_example =
    cached_indexes-registry toy_caches cleared-Reach refl (handle cleared) (refl, refl) []

cached_indexes_stale_example :
    (s : Schema.Schema) × Schema.Reach before s
    × (s.registry ≡ after)
    × ((inner : Db.DbInner toy_caches)
        → Shows toy_caches inner s
        → (Db.cached_indexes toy_caches inner [] (ok (after []))).0 ≡ ok (before []))
cached_indexes_stale_example = cached_indexes_stale toy_caches before after []
