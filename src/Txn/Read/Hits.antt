-- ===== src/Txn/Read/Hits.antt =====
-- The reads and writes of a sound cache of crates/stratodb/src/cache.rs: a hit is what the table has,
-- and what is put is what was read there.
use stratodb.Base.{
  ℕ, ◌≡◌, refl, sym, ap, ◌∙◌, inl, inr, false, Option, none, some, some-inj, ◌==◌, Bool-cases,
  subst, arith,
}
use stratodb.Error.{SPath, SdbResult, ok}
use stratodb.Crates.{Crates}
use stratodb.Key.{Skey}
use stratodb.Node.{Node}
use stratodb.Engine.Backend.{ReadNodes}
use stratodb.Engine.Archived.{Rkyv, ArchTree, new_archived}
use stratodb.Cache.{Caches, PathCache, Mutex, locked, tagged_with}
use stratodb.Cache
use stratodb.Tree.{read_node}
use stratodb.Txn.Read.Monad.{Session, Action, and_then, ◌>>=◌, pure, lift, on_cache}
use stratodb.Txn.Read.{ReadTxn, on_miss, remember, cached, decode_blob, packed_mem}
use stratodb.Txn.Read.Sound.{
  IsSound, at_version, resolved, archive_of, blob_of, IsOpened, Returned, Gives, bind-Gives,
  lift-Gives, pure-Gives,
}

module _ ⦃crates : Crates⦄ ⦃rkyv : Rkyv⦄ (R : ReadNodes) (C : Caches)
    (versions : ℕ → Option R.Store) where
  -- What the path cache has after a change is what it had, or is sound.
  entries-IsSound :
      (c : PathCache C) (l : C.paths.Lru)
      → IsSound R C versions c
      → ((path : SPath) (g : ℕ) (key : Skey)
          → C.paths.peek l path ≡ some (g, key)
          → resolved R C versions g path ≡ ok (some key))
      → IsSound R C versions (record c { entries = record { poisoned = false; guarded = l } })
  entries-IsSound c l h paths = record {
    entries_whole = refl;
    blobs_whole = h.blobs_whole;
    paths_sound = paths;
    archives_sound = h.archives_sound;
  }

  blobs-IsSound :
      (c : PathCache C) (l : C.archives.Lru)
      → IsSound R C versions c
      → ((g : ℕ) (key : Skey) (mem : ArchTree)
          → C.archives.peek l (g, key) ≡ some mem
          → at_version R C versions (ok none) g (blob_of R C versions key) ≡ ok (some mem))
      → IsSound R C versions (record c { blobs = record { poisoned = false; guarded = l } })
  blobs-IsSound c l h archives = record {
    entries_whole = h.entries_whole;
    blobs_whole = refl;
    paths_sound = h.paths_sound;
    archives_sound = archives;
  }

  get_lem :
      (c : PathCache C) (g : ℕ) (path : SPath)
      → IsSound R C versions c
      → Cache.get C c g path ≡ (
        ok (tagged_with g (C.paths.peek c.entries.guarded path)),
        record c {
          entries = record { poisoned = false; guarded = (C.paths.get c.entries.guarded path).1 };
        },
      )
  unfolding Cache.get locked
  get_lem c g path h = rw (h.entries_whole, C.paths.get-peek c.entries.guarded path) refl

  get_blob_lem :
      (c : PathCache C) (g : ℕ) (key : Skey)
      → IsSound R C versions c
      → Cache.get_blob C c g key ≡ (
        ok (C.archives.peek c.blobs.guarded (g, key)),
        record c {
          blobs = record {
            poisoned = false;
            guarded = (C.archives.get c.blobs.guarded (g, key)).1;
          };
        },
      )
  unfolding Cache.get_blob locked
  get_blob_lem c g key h = rw (h.blobs_whole, C.archives.get-peek c.blobs.guarded (g, key)) refl

  put_lem :
      (c : PathCache C) (g : ℕ) (path : SPath) (key : Skey)
      → IsSound R C versions c
      → Cache.put C c g path key ≡ (
        ok tt,
        record c {
          entries = record {
            poisoned = false;
            guarded = C.paths.put c.entries.guarded path (g, key);
          };
        },
      )
  unfolding Cache.put locked
  put_lem c g path key h = rw h.entries_whole refl

  put_blob_lem :
      (c : PathCache C) (g : ℕ) (key : Skey) (mem : ArchTree)
      → IsSound R C versions c
      → Cache.put_blob C c g key mem ≡ (
        ok tt,
        record c {
          blobs = record {
            poisoned = false;
            guarded = C.archives.put c.blobs.guarded (g, key) mem;
          };
        },
      )
  unfolding Cache.put_blob locked
  put_blob_lem c g key mem h = rw h.blobs_whole refl

  -- A hit of a generation is an entry of that generation.
  tagged_with-hit :
      (g : ℕ) (found : Option (ℕ × Skey)) (key : Skey)
      → tagged_with g found ≡ some key
      → found ≡ some (g, key)
  unfolding tagged_with
  tagged_with-hit g none key e = cc
  tagged_with-hit g (some (tagged, k)) key e = elim (Bool-cases (tagged == g)) [
    | inl same ↦
        let found : some k ≡ some key = rw same at e in
        let equal : tagged ≡ g = ground arith in rw (equal, some-inj found) refl
    | inr other ↦ let nothing : none ≡ some key = rw other at e in cc
  ]

  module _ (txn : ReadTxn R C) (session : Session R C)
      (opened : IsOpened R C versions txn session.data_table) where
    -- The rest of an action, behind a method of the cache that returned `p`.
    rest-Returned :
        {A B : Type 0} (f : PathCache C → SdbResult A × PathCache C) (p : SdbResult A × PathCache C)
        (next : A → Action R C B) (r : SdbResult B)
        → f session.cache ≡ p
        → Returned R C versions txn r (and_then (p.0, record session { cache = p.1 }) next)
        → Returned R C versions txn r ((on_cache f >>= next) session)
    unfolding ◌>>=◌ on_cache
    rest-Returned f p next r e h =
        subst
          (λ q. Returned R C versions txn r (and_then (q.0, record session { cache = q.1 }) next))
          (sym e) h

    on_miss-Returned :
        {A : Type 0} (m : Action R C (Option A)) (r : SdbResult (Option A)) (found : Option A)
        (cache : PathCache C)
        → Gives R C versions txn m r
        → ((a : A) → found ≡ some a → r ≡ ok (some a))
        → IsSound R C versions cache
        → Returned R C versions txn r (on_miss R C txn m found (record session { cache = cache }))
    unfolding pure
    on_miss-Returned m r (some a) cache miss hit sound = (sym (hit a refl), (opened, sound))
    on_miss-Returned m r none cache miss hit sound =
        miss (record session { cache = cache }) (opened, sound)

  module _ (txn : ReadTxn R C) where
    pub cached-Gives :
        (path : SPath) (m : Action R C (Option Skey)) (r : SdbResult (Option Skey))
        → Gives R C versions txn m r
        → ((key : Skey)
            → resolved R C versions txn.generation path ≡ ok (some key)
            → r ≡ ok (some key))
        → Gives R C versions txn (cached R C txn path m) r
    unfolding cached
    cached-Gives path m r miss hit session (opened, sound) =
        rest-Returned txn session opened (λ c. Cache.get C c txn.generation path) _
          (on_miss R C txn m) r (get_lem session.cache txn.generation path sound)
          (on_miss-Returned txn session opened m r _ _ miss
            (λ key e.
              hit key (sound.paths_sound path txn.generation key (tagged_with-hit _ _ key e)))
            (entries-IsSound session.cache _ sound (λ q g key e.
              sound.paths_sound q g key
                (sym (C.paths.get_keeps session.cache.entries.guarded path q) ∙ e))))

    pub remember-Gives :
        (path : SPath) (found : Option Skey)
        → ((key : Skey)
            → found ≡ some key
            → resolved R C versions txn.generation path ≡ ok (some key))
        → Gives R C versions txn (remember R C txn path found) (ok found)
    unfolding remember pure
    remember-Gives path none h session sound = (refl, sound)
    remember-Gives path (some key) h session (opened, sound) =
        rest-Returned txn session opened (λ c. Cache.put C c txn.generation path key) _
          (λ _. pure (some key)) (ok (some key))
          (put_lem session.cache txn.generation path key sound)
          (refl, (opened, entries-IsSound session.cache _ sound kept))
      where
        kept :
            (q : SPath) (g : ℕ) (k : Skey)
            → C.paths.peek (C.paths.put session.cache.entries.guarded path (txn.generation, key)) q
              ≡ some (g, k)
            → resolved R C versions g q ≡ ok (some k)
        kept q g k e = elim (C.paths.put_source session.cache.entries.guarded path _ q (g, k) e) [
          | inl (same, pair) ↦ rw (same, ap (λ p. p.0) pair, ap (λ p. p.1) pair) (h key refl)
          | inr old ↦ sound.paths_sound q g k old
        ]

    -- The archive of a packed entity in the table of the generation.
    abbrev pub archived : Skey → SdbResult (Option ArchTree)
    archived key = at_version R C versions (ok none) txn.generation (blob_of R C versions key)

    decode_blob-Gives :
        (key : Skey) (found : Option Node)
        → ((mem : ArchTree)
            → archive_of R C versions found ≡ ok (some mem)
            → archived key ≡ ok (some mem))
        → Gives R C versions txn (decode_blob R C txn key found) (archive_of R C versions found)
    unfolding decode_blob pure
    decode_blob-Gives key none h = pure-Gives R C versions txn none
    decode_blob-Gives key (some (Node.object)) h = pure-Gives R C versions txn none
    decode_blob-Gives key (some (Node.list items)) h = pure-Gives R C versions txn none
    decode_blob-Gives key (some (Node.leaf s)) h = pure-Gives R C versions txn none
    decode_blob-Gives key (some (Node.packed root blob)) h =
        bind-Gives R C versions txn (lift (new_archived blob)) (new_archived blob) _
          (λ mem. ok (some mem)) (lift-Gives R C versions txn (new_archived blob)) put_back
      where
        put_back :
            (mem : ArchTree)
            → new_archived blob ≡ ok mem
            → Gives R C versions txn
                (on_cache (λ c. Cache.put_blob C c txn.generation key mem) >>= λ _. pure (some mem))
                (ok (some mem))
        put_back mem decodes session (opened, sound) =
            rest-Returned txn session opened (λ c. Cache.put_blob C c txn.generation key mem) _
              (λ _. pure (some mem)) (ok (some mem))
              (put_blob_lem session.cache txn.generation key mem sound)
              (
                refl,
                (
                  opened,
                  blobs-IsSound session.cache _ sound (λ g k m e.
                      elim (C.archives.put_source session.cache.blobs.guarded (txn.generation, key)
                        mem (g, k) m e) [
                          | inl (same, tree) ↦
                              rw (ap (λ p. p.0) same, ap (λ p. p.1) same, tree)
                                (h mem (rw decodes refl))
                          | inr old ↦ sound.archives_sound g k m old
                        ]),
                ),
              )

    -- `packed_mem` is the read of the table, whatever the cache has.
    pub packed_mem-Gives :
        (s : R.Store) (key : Skey)
        → versions txn.generation ≡ some s
        → Gives R C versions txn (packed_mem R C txn s key) (blob_of R C versions key s)
    unfolding packed_mem
    packed_mem-Gives s key e session (opened, sound) =
        rest-Returned txn session opened (λ c. Cache.get_blob C c txn.generation key) _
          (on_miss R C txn _) (blob_of R C versions key s)
          (get_blob_lem session.cache txn.generation key sound)
          (on_miss-Returned txn session opened _ (blob_of R C versions key s) _ _ read
            (λ mem hit. here (sound.archives_sound txn.generation key mem hit))
            (blobs-IsSound session.cache _ sound (λ g k m hit.
              sound.archives_sound g k m
                (sym (C.archives.get_keeps session.cache.blobs.guarded _ (g, k)) ∙ hit))))
      where
        here : {r : SdbResult (Option ArchTree)} → archived key ≡ r → blob_of R C versions key s ≡ r
        here {r} h = rw e at h

        read :
            Gives R C versions txn
              (lift (read_node R s key) >>= decode_blob R C txn key)
              (blob_of R C versions key s)
        read =
            bind-Gives R C versions txn (lift (read_node R s key)) (read_node R s key) _
              (archive_of R C versions) (lift-Gives R C versions txn (read_node R s key))
              (λ found got. decode_blob-Gives key found (λ mem h. rw (e, got) h))
