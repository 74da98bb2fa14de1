-- ===== src/Db/Sets.antt =====
-- What `cached_indexes` of crates/stratodb/src/db/inner.rs returns to a write transaction, before and
-- after the commits of index definitions have bumped the counter.
use stratodb.Base.{◌≡◌, refl, ap, ◌∙◌, List, inl, inr, Option-cases, arith, Text, text_eq_refl}
use stratodb.Base.Dict.{lookup, insert}
use stratodb.Error.{SdbResult, ok}
use stratodb.Crates.{Crates}
use stratodb.Cache.{Caches, locked}
use stratodb.Index.Maintenance.{IndexEntry}
use stratodb.Db.{DbInner, current_set, keep_set, or_load, sets_at, cached_indexes}
use stratodb.Db.Schema.{
  Schema, init, commit, use_set, Reach, start, next, Reach-IsCurrent, sets_at-or_load,
  current_set-hit,
}

-- The first write transaction has cached its set, and a commit of definitions has not bumped the
-- counter yet.
abbrev pub late : (Text → List IndexEntry) → (Text → List IndexEntry) → Text → Schema
late r r' table = record {
  registry = r';
  schema_gen = 0;
  unbumped = 1;
  index_sets = (sets_at (init r).index_sets 0 table (ok (r table))).1;
}

stale :
    (r r' : Text → List IndexEntry) (table : Text)
    → (sets_at (late r r' table).index_sets 0 table (ok (r' table))).0 ≡ ok (r table)
unfolding sets_at locked current_set or_load keep_set lookup insert
stale r r' table = rw (text_eq_refl table) refl

module _ ⦃crates : Crates⦄ (C : Caches) where
  -- The part of the shared state that the index sets are kept in.
  abbrev pub Shows : DbInner C → Schema → Type 0
  Shows inner s = (inner.index_sets ≡ s.index_sets) × (inner.schema_gen ≡ s.schema_gen)

  cached_indexes-sets_at :
      (inner : DbInner C) (s : Schema) (table : Text) (load : SdbResult (List IndexEntry))
      → Shows inner s
      → (cached_indexes C inner table load).0 ≡ (sets_at s.index_sets s.schema_gen table load).0
  unfolding cached_indexes
  cached_indexes-sets_at inner s table load (e, f) = rw (e, f) refl

  -- Where every commit of index definitions has bumped the counter, whatever commits, bumps and write
  -- transactions went before, `cached_indexes` returns the index set of the committed registry.
  pub cached_indexes-registry :
      {r : Text → List IndexEntry} {s : Schema}
      → Reach r s
      → s.unbumped ≡ 0
      → (inner : DbInner C) → Shows inner s
      → (table : Text)
      → (cached_indexes C inner table (ok (s.registry table))).0 ≡ ok (s.registry table)
  unfolding or_load keep_set locked
  cached_indexes-registry {s} r clear inner shows table =
      let h = Reach-IsCurrent r in
      cached_indexes-sets_at inner s table (ok (s.registry table)) shows
      ∙ ap (λ p. p.0)
          (sets_at-or_load s.index_sets s.schema_gen table (ok (s.registry table)) h.whole)
      ∙ elim (Option-cases (current_set s.schema_gen (lookup s.index_sets.guarded table))) [
        | inl miss ↦ rw (miss, h.whole) refl
        | inr (set, hit) ↦
            let kept = h.tagged table _ (current_set-hit s.schema_gen _ set hit) in
            rw hit (ap ok (kept.1 refl clear))
      ]

  -- Between the commit of index definitions and its bump, a write transaction can begin that gets the
  -- index set of the registry before the commit: for any two registries there is a reachable state
  -- where the second is committed and `cached_indexes` returns the set of the first.
  pub cached_indexes_stale :
      (r r' : Text → List IndexEntry) (table : Text)
      → (s : Schema) × Reach r s
        × (s.registry ≡ r')
        × ((inner : DbInner C)
            → Shows inner s
            → (cached_indexes C inner table (ok (r' table))).0 ≡ ok (r table))
  cached_indexes_stale r r' table = (
    late r r' table,
    next (next start (use_set 0 table (ok (r table)) (omega arith) refl)) (commit r'),
    refl,
    λ inner shows.
        cached_indexes-sets_at inner (late r r' table) table (ok (r' table)) shows
        ∙ stale r r' table,
  )
