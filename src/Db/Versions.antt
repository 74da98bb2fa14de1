-- ===== src/Db/Versions.antt =====
-- The `version_lock` of crates/stratodb/src/db/inner.rs: threads that begin read transactions (`read` of
-- table.rs), commit write transactions (`commit` of txn/write.rs), and commit index definitions
-- (`create_index`, `delete_index` and `ensure_index` of table.rs), a shared access at a time. The engine
-- is the number of write transactions that were committed (`version`), and that of the commits of index
-- definitions (`catalog`), which take no lock and bump no generation. No thread panics with the lock
-- held.
use stratodb.Base.{
  ℕ, ◌+◌, ◌%◌, ◌^◌, ◌<◌, ◌≡◌, ◌≢◌, refl, subst, arith, ◌==◌, if◌then◌else◌, Bool-cases, inl, inr,
}
use stratodb.Db.{add_one}

-- Where `read` stands, with what it has read: its snapshot, and the generation.
pub data Reader : Type 0 where
  idle locked : Reader
  begun : (version catalog : ℕ) → Reader
  loaded reading : (version catalog generation : ℕ) → Reader

-- Where `commit` stands.
pub data Writer : Type 0 where
  idle locked committed bumped : Writer

pub record Shared : Type 0 where
  pub version : ℕ
  pub catalog : ℕ
  pub generation : ℕ
  pub writer : Writer
  pub readers : ℕ → Reader

-- The lock is held for reading.
abbrev pub HoldsLock : Reader → Type 0
HoldsLock Reader.idle = ⊥
HoldsLock (reading v c g) = ⊥
HoldsLock _ = Unit

-- A step of `read`, by what it reads of the shared state: the lock, `begin_read`, which can fail, the
-- load of the counter, the drop of the guard, and the end of the transaction.
pub data Reads (s : Shared) : Reader → Reader → Type 0 where
  lock : s.writer ≡ Writer.idle → Reads s Reader.idle Reader.locked
  begin_read : Reads s Reader.locked (begun s.version s.catalog)
  begin_fails : Reads s Reader.locked Reader.idle
  load : {v c : ℕ} → Reads s (begun v c) (loaded v c s.generation)
  drop : {v c g : ℕ} → Reads s (loaded v c g) (reading v c g)
  finish : {v c g : ℕ} → Reads s (reading v c g) Reader.idle

unfoldable pub set_reader : (ℕ → Reader) → ℕ → Reader → ℕ → Reader
set_reader readers i r j = if j == i then r else readers j

-- A step of a thread; those of `commit` are the lock, which waits for the readers, the engine's commit,
-- which can fail, the bump of the counter, and the drop of the guard. `commit_indexes` is the whole of a
-- commit of index definitions, which the engine admits while no other write transaction is open.
pub data Step (s : Shared) : Shared → Type 0 where
  reads :
      (i : ℕ) {r : Reader}
      → Reads s (s.readers i) r
      → Step s (record s { readers = set_reader s.readers i r })
  write_lock :
      s.writer ≡ Writer.idle
      → ((i : ℕ) → ¬ HoldsLock (s.readers i))
      → Step s (record s { writer = Writer.locked })
  commit :
      s.writer ≡ Writer.locked → Step s (record s { version = s.version + 1; writer = committed })
  commit_fails : s.writer ≡ Writer.locked → Step s (record s { writer = Writer.idle })
  bump :
      s.writer ≡ committed
      → Step s (record s { generation = add_one s.generation; writer = bumped })
  commit_indexes : s.writer ≢ Writer.locked → Step s (record s { catalog = s.catalog + 1 })
  drop_guard : s.writer ≡ bumped → Step s (record s { writer = Writer.idle })

abbrev pub init : Shared
init = record {
  version = 0;
  catalog = 0;
  generation = 0;
  writer = Writer.idle;
  readers = λ _. Reader.idle;
}

pub data Reach : Shared → Type 0 where
  start : Reach init
  next : {s t : Shared} → Reach s → Step s t → Reach t

-- The counter is behind by one between a commit and its bump.
abbrev pub Counts : Shared → Writer → Type 0
Counts s committed = add_one s.generation ≡ s.version % 2 ^ 64
Counts s _ = s.generation ≡ s.version % 2 ^ 64

-- What a thread has read, where it may hold the lock only while no writer does.
abbrev pub HasRead : Shared → Reader → Type 0
HasRead s Reader.idle = Unit
HasRead s Reader.locked = s.writer ≡ Writer.idle
HasRead s (begun v c) = (s.writer ≡ Writer.idle) × (v ≡ s.version)
HasRead s (loaded v c g) = (s.writer ≡ Writer.idle) × (g ≡ v % 2 ^ 64)
HasRead s (reading v c g) = g ≡ v % 2 ^ 64

pub record IsConsistent (s : Shared) : Type 0 where
  pub counts : Counts s s.writer
  pub has_read : (i : ℕ) → HasRead s (s.readers i)

init-IsConsistent : IsConsistent init
init-IsConsistent = record { counts = refl; has_read = λ i. tt }

Reads-HasRead :
    (s : Shared) {p r : Reader} → Reads s p r → Counts s s.writer → HasRead s p → HasRead s r
Reads-HasRead s (lock e) counts h = e
Reads-HasRead s begin_read counts h = (h, refl)
Reads-HasRead s begin_fails counts h = tt
Reads-HasRead s (load {v} {c}) counts (e, same) =
    let here : s.generation ≡ s.version % 2 ^ 64 = rw e at counts in (e, rw same here)
Reads-HasRead s drop counts (e, h) = h
Reads-HasRead s finish counts h = tt

-- Where a writer is at work, no thread that reads under the lock is left.
locked_out : (s t : Shared) (r : Reader) → HasRead s r → s.writer ≢ Writer.idle → HasRead t r
locked_out s t Reader.idle h busy = tt
locked_out s t Reader.locked h busy = absurd (busy h)
locked_out s t (begun v c) h busy = absurd (busy h.0)
locked_out s t (loaded v c g) h busy = absurd (busy h.0)
locked_out s t (reading v c g) h busy = h

waits : (s t : Shared) (r : Reader) → HasRead s r → ¬ HoldsLock r → HasRead t r
waits s t Reader.idle h free = tt
waits s t Reader.locked h free = absurd (free tt)
waits s t (begun v c) h free = absurd (free tt)
waits s t (loaded v c g) h free = absurd (free tt)
waits s t (reading v c g) h free = h

-- Threads that had read under the lock keep what they read while no writer takes it.
set_reader-HasRead :
    (s : Shared) (i : ℕ) (r : Reader)
    → ((j : ℕ) → HasRead s (s.readers j))
    → HasRead s r
    → (j : ℕ) → HasRead s (set_reader s.readers i r j)
unfolding set_reader
set_reader-HasRead s i r h now j = elim (Bool-cases (j == i)) [
  | inl same ↦ rw same now
  | inr other ↦ rw other (h j)
]

add_one-version : (g v : ℕ) → g ≡ v % 2 ^ 64 → add_one g ≡ (v + 1) % 2 ^ 64
unfolding add_one
add_one-version g v e = omega arith

catalog-HasRead :
    (s : Shared) (n : ℕ) (r : Reader) → HasRead s r → HasRead (record s { catalog = n }) r
catalog-HasRead s n Reader.idle h = tt
catalog-HasRead s n Reader.locked h = h
catalog-HasRead s n (begun v c) h = h
catalog-HasRead s n (loaded v c g) h = h
catalog-HasRead s n (reading v c g) h = h

catalog-Counts :
    (s : Shared) (n : ℕ) (w : Writer) → Counts s w → Counts (record s { catalog = n }) w
catalog-Counts s n Writer.idle h = h
catalog-Counts s n Writer.locked h = h
catalog-Counts s n committed h = h
catalog-Counts s n bumped h = h

Step-IsConsistent : {s t : Shared} → Step s t → IsConsistent s → IsConsistent t
Step-IsConsistent {s} (reads i {r} step) h = record {
  counts = h.counts;
  has_read = set_reader-HasRead s i r h.has_read (Reads-HasRead s step h.counts (h.has_read i));
}
Step-IsConsistent {s} (write_lock e free) h = record {
  counts = rw e at h.counts;
  has_read =
      λ i. waits s (record s { writer = Writer.locked }) (s.readers i) (h.has_read i) (free i);
}
Step-IsConsistent {s} (commit e) h = record {
  counts = add_one-version s.generation s.version (rw e at h.counts);
  has_read = λ i.
      locked_out s (record s { version = s.version + 1; writer = committed }) (s.readers i)
        (h.has_read i) (λ idle. cc);
}
Step-IsConsistent {s} (commit_fails e) h = record {
  counts = rw e at h.counts;
  has_read = λ i.
      locked_out s (record s { writer = Writer.idle }) (s.readers i) (h.has_read i) (λ idle. cc);
}
Step-IsConsistent {s} (bump e) h = record {
  counts = rw e at h.counts;
  has_read =
      λ i. locked_out s (record s { writer = bumped }) (s.readers i) (h.has_read i) (λ idle. cc);
}
Step-IsConsistent {s} (commit_indexes free) h = record {
  counts = catalog-Counts s (s.catalog + 1) s.writer h.counts;
  has_read = λ i. catalog-HasRead s (s.catalog + 1) (s.readers i) (h.has_read i);
}
Step-IsConsistent {s} (drop_guard e) h = record {
  counts = rw e at h.counts;
  has_read = λ i.
      locked_out s (record s { writer = Writer.idle }) (s.readers i) (h.has_read i) (λ idle. cc);
}

Reach-IsConsistent : {s : Shared} → Reach s → IsConsistent s
Reach-IsConsistent start = init-IsConsistent
Reach-IsConsistent (next r step) = Step-IsConsistent step (Reach-IsConsistent r)

-- However threads that begin reads, threads that commit write transactions and threads that commit
-- index definitions interleave: the generation of a read transaction is the number of write transactions
-- whose commits its snapshot holds, to 64 bits; commits of index definitions are not counted. Two read
-- transactions of one generation have snapshots that hold the commits of the same write transactions,
-- where fewer than 2^64 of them lie between.
pub reading_version :
    {s : Shared}
    → Reach s
    → (i j v w c d g : ℕ) → s.readers i ≡ reading v c g
    → s.readers j ≡ reading w d g
    → w < v + 2 ^ 64
    → v < w + 2 ^ 64
    → (g ≡ v % 2 ^ 64) × (v ≡ w)
reading_version {s} r i j v w c d g ei ej near near' =
    let h = Reach-IsConsistent r in
    let first : g ≡ v % 2 ^ 64 = subst (HasRead s) ei (h.has_read i) in
    let second : g ≡ w % 2 ^ 64 = subst (HasRead s) ej (h.has_read j) in (first, omega arith)
