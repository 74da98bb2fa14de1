-- ===== src/Db/Schema.antt =====
-- The index sets that write transactions share (`cached_indexes` and `bump_schema_gen` of
-- crates/stratodb/src/db/inner.rs), against the commits of index definitions: `create_index`,
-- `ensure_index` and `delete_index` of table.rs bump the counter after their commit, and the next write
-- transaction can begin in between. The counter does not wrap around here.
use stratodb.Base.{
  ℕ, ◌+◌, ◌^◌, ◌<◌, ◌≤◌, ◌≡◌, refl, inl, inr, List, [], false, ◌==◌, Option, none, some, some-inj,
  not_some, Bool-cases, arith, Text, text_eq, text_eq_sound,
}
use stratodb.Base.Dict.{lookup, insert, lookup-insert}
use stratodb.Error.{SdbResult, ok, err, panic}
use stratodb.Cache.{Mutex, locked}
use stratodb.Index.Maintenance.{IndexEntry}
use stratodb.Db.{IndexSets, add_one, current_set, keep_set, or_load, sets_at}

-- The committed registry, by table; the counter; how many commits of definitions have not bumped it
-- yet; the cached sets.
pub record Schema : Type 0 where
  pub registry : Text → List IndexEntry
  pub schema_gen : ℕ
  pub unbumped : ℕ
  pub index_sets : Mutex IndexSets

abbrev pub init : (Text → List IndexEntry) → Schema
init registry = record {
  registry = registry;
  schema_gen = 0;
  unbumped = 0;
  index_sets = record { poisoned = false; guarded = [] };
}

-- A write transaction loads the set of its table from the committed registry, or fails to.
abbrev pub IsLoad : Schema → Text → SdbResult (List IndexEntry) → Type 0
IsLoad s table (ok set) = set ≡ s.registry table
IsLoad s table (err e) = Unit
IsLoad s table panic = ⊥

-- Write transactions exclude one another up to their commit. `current` is the counter where
-- `cached_indexes` loaded it, which may be before the bumps since.
pub data Step (s : Schema) : Schema → Type 0 where
  commit :
      (registry : Text → List IndexEntry)
      → Step s (record s { registry = registry; unbumped = s.unbumped + 1 })
  bump :
      (left : ℕ)
      → s.unbumped ≡ left + 1
      → s.schema_gen + 1 < 2 ^ 64
      → Step s (record s { schema_gen = add_one s.schema_gen; unbumped = left })
  use_set :
      (current : ℕ) (table : Text) (load : SdbResult (List IndexEntry))
      → current ≤ s.schema_gen
      → IsLoad s table load
      → Step s (record s { index_sets = (sets_at s.index_sets current table load).1 })

pub data Reach (registry : Text → List IndexEntry) : Schema → Type 0 where
  start : Reach registry (init registry)
  next : {s t : Schema} → Reach registry s → Step s t → Reach registry t

-- A cached set is of a generation that was, and once every commit has bumped the counter, a set of the
-- current one is the registry's.
abbrev pub IsTagged : Schema → Text → ℕ × List IndexEntry → Type 0
IsTagged s table (g, set) =
    (g ≤ s.schema_gen) × (g ≡ s.schema_gen → s.unbumped ≡ 0 → set ≡ s.registry table)

pub record IsCurrent (s : Schema) : Type 0 where
  pub whole : s.index_sets.poisoned ≡ false
  pub tagged :
      (table : Text) (entry : ℕ × List IndexEntry)
      → lookup s.index_sets.guarded table ≡ some entry
      → IsTagged s table entry

pub current_set-hit :
    (current : ℕ) (found : Option (ℕ × List IndexEntry)) (set : List IndexEntry)
    → current_set current found ≡ some set
    → found ≡ some (current, set)
unfolding current_set
current_set-hit current none set e = absurd (not_some e)
current_set-hit current (some (g, kept)) set e = elim (Bool-cases (g == current)) [
  | inl same ↦
      let found : some kept ≡ some set = rw same at e in
      let equal : g ≡ current = ground arith in rw (equal, some-inj found) refl
  | inr other ↦ absurd (not_some (rw other at e))
]

-- What the cached sets are after a load was put there.
insert-IsTagged :
    (s : Schema) (current : ℕ) (table : Text) (set : List IndexEntry)
    → IsCurrent s
    → current ≤ s.schema_gen
    → set ≡ s.registry table
    → (other : Text) (entry : ℕ × List IndexEntry)
    → lookup (insert s.index_sets.guarded table (current, set)) other ≡ some entry
    → IsTagged s other entry
insert-IsTagged s current table set h past same other entry e =
    elim (Bool-cases (text_eq other table)) [
      | inl equal ↦
          let found : some (current, set) ≡ some entry =
            rw (lookup-insert s.index_sets.guarded table (current, set) other, equal) at e in
          rw (← some-inj found, text_eq_sound other table equal) (past, λ _ _. same)
      | inr differ ↦
          h.tagged other entry
            (rw (lookup-insert s.index_sets.guarded table (current, set) other, differ) at e)
    ]

put_back-IsCurrent :
    (s : Schema) (current : ℕ) (table : Text) (load : SdbResult (List IndexEntry))
    → IsCurrent s
    → current ≤ s.schema_gen
    → IsLoad s table load
    → IsCurrent (record s { index_sets = (keep_set s.index_sets current table load).1 })
unfolding keep_set locked
put_back-IsCurrent s current table (ok set) h past same =
    rw h.whole (record { whole = refl; tagged = insert-IsTagged s current table set h past same })
put_back-IsCurrent s current table (err e) h past same = record {
  whole = h.whole;
  tagged = h.tagged;
}
put_back-IsCurrent s current table panic h past same = absurd same

or_load-IsCurrent :
    (s : Schema) (current : ℕ) (table : Text) (load : SdbResult (List IndexEntry))
    (found : Option (List IndexEntry))
    → IsCurrent s
    → current ≤ s.schema_gen
    → IsLoad s table load
    → IsCurrent (record s { index_sets = (or_load s.index_sets current table load (ok found)).1 })
unfolding or_load
or_load-IsCurrent s current table load (some set) h past same = record {
  whole = h.whole;
  tagged = h.tagged;
}
or_load-IsCurrent s current table load none h past same =
    put_back-IsCurrent s current table load h past same

-- `sets_at` where no thread panicked with the lock held.
pub sets_at-or_load :
    (sets : Mutex IndexSets) (current : ℕ) (table : Text) (load : SdbResult (List IndexEntry))
    → sets.poisoned ≡ false
    → sets_at sets current table load
      ≡ or_load sets current table load (ok (current_set current (lookup sets.guarded table)))
unfolding sets_at locked
sets_at-or_load sets current table load whole = rw whole refl

Step-IsCurrent : {s t : Schema} → Step s t → IsCurrent s → IsCurrent t
unfolding add_one
Step-IsCurrent {s} (commit registry) h = record {
  whole = h.whole;
  tagged = λ table (g, set) e. ((h.tagged table (g, set) e).0, λ now clear. absurd (omega arith));
}
Step-IsCurrent {s} (bump left e fits) h = record {
  whole = h.whole;
  tagged = λ table (g, set) e.
      let past = (h.tagged table (g, set) e).0 in (omega arith, λ now clear. absurd (omega arith));
}
Step-IsCurrent {s} (use_set current table load past same) h =
    rw (sets_at-or_load s.index_sets current table load h.whole)
      (or_load-IsCurrent s current table load _ h past same)

pub Reach-IsCurrent : {r : Text → List IndexEntry} {s : Schema} → Reach r s → IsCurrent s
unfolding lookup
Reach-IsCurrent start = record { whole = refl; tagged = λ table entry e. absurd (not_some e) }
Reach-IsCurrent (next r step) = Step-IsCurrent step (Reach-IsCurrent r)
