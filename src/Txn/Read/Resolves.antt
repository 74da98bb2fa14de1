-- ===== src/Txn/Read/Resolves.antt =====
-- The cached reads of crates/stratodb/src/txn/read.rs against the reads of the table, for transactions
-- of any generations that share one cache.
use stratodb.Base.{ℕ, ◌≡◌, refl, sym, ap, subst, ◌∙◌, List, [], ◌∷◌, ◌++◌, Option, none, some}
use stratodb.Error.{Segment, SPath, SdbResult, ok, err, panic}
use stratodb.Error
use stratodb.Crates.{Crates}
use stratodb.Key.{Skey}
use stratodb.Key
use stratodb.Node.{Node}
use stratodb.Scalar.{Scalar}
use stratodb.Engine.Backend.{ReadNodes}
use stratodb.Engine.Archived.{Rkyv}
use stratodb.Cache.{Caches, PathCache}
use stratodb.Cache
use stratodb.Tree.{
  Located, missing, plain, packed, read_node, locate, child_key, leaf_at, walk,
  resolve_from_checked, resolve,
}
use stratodb.Txn.Read.Monad.{◌>>=◌, lift}
use stratodb.Txn.Read.{
  ReadTxn, remember, lookup_path, lookup_child_cached, packed_mem, scalar_inside, scalar_located,
  scalar_at_path,
}
use stratodb.Txn.Read.Sound.{
  IsSound, at_version, in_table, resolved, blob_of, IsSnapshot, IsOpened, Gives, bind-Gives,
  lift-Gives, pure-Gives, on_table-Gives,
}
use stratodb.Txn.Read.Hits.{cached-Gives, remember-Gives, packed_mem-Gives}

module _ ⦃crates : Crates⦄ (R : ReadNodes) (s : R.Store) (seg : Segment) where
  walk_end :
      (found : SdbResult (Option Skey))
      → Error.◌>>=◌ found (λ next. elim next [ none ↦ ok none | some c ↦ ok (some c) ]) ≡ found
  walk_end (ok none) = refl
  walk_end (ok (some c)) = refl
  walk_end (err e) = refl
  walk_end panic = refl

  -- One more segment of a walk.
  walk-append :
      (segs : List Segment) (k c : Skey)
      → walk R s k segs ≡ ok (some c)
      → walk R s k (segs ++ seg ∷ []) ≡ child_key R s c seg
  unfolding walk
  walk-append [] k c e =
      let same : k ≡ c = cc in walk_end (child_key R s k seg) ∙ ap (λ x. child_key R s x seg) same
  walk-append (x ∷ segs) k c e = step (child_key R s k x) (λ next. walk-append segs next c) e
    where
      step :
          (found : SdbResult (Option Skey))
          → ((next : Skey)
              → walk R s next segs ≡ ok (some c)
              → walk R s next (segs ++ seg ∷ []) ≡ child_key R s c seg)
          → Error.◌>>=◌ found (λ next. elim next [ none ↦ ok none | some d ↦ walk R s d segs ])
            ≡ ok (some c)
          → Error.◌>>=◌ found
              (λ next. elim next [ none ↦ ok none | some d ↦ walk R s d (segs ++ seg ∷ []) ])
            ≡ child_key R s c seg
      step (ok none) later h = cc
      step (ok (some next)) later h = later next h
      step (err _) later h = cc
      step panic later h = cc

  -- A child of what a path resolves to is what its own path resolves to.
  resolve-child_key :
      (path child_path : SPath) (parent : Skey)
      → child_path.segments ≡ path.segments ++ seg ∷ []
      → resolve R s path ≡ ok (some parent)
      → resolve R s child_path ≡ child_key R s parent seg
  unfolding resolve resolve_from_checked
  resolve-child_key path child_path parent same e = at_root (read_node R s Key.root) e
    where
      at_root :
          (found : SdbResult (Option Node))
          → Error.◌>>=◌ found
              (λ n. elim n [ none ↦ ok none | some _ ↦ walk R s Key.root path.segments ])
            ≡ ok (some parent)
          → Error.◌>>=◌ found
              (λ n. elim n [ none ↦ ok none | some _ ↦ walk R s Key.root child_path.segments ])
            ≡ child_key R s parent seg
      at_root (ok none) h = cc
      at_root (ok (some n)) h = rw same (walk-append path.segments Key.root parent h)
      at_root (err _) h = cc
      at_root panic h = cc

bind_ok : {A : Type 0} (r : SdbResult A) → Error.◌>>=◌ r ok ≡ r
bind_ok (ok a) = refl
bind_ok (err e) = refl
bind_ok panic = refl

module _ ⦃crates : Crates⦄ ⦃rkyv : Rkyv⦄ (R : ReadNodes) (C : Caches)
    (versions : ℕ → Option R.Store) where
  module _ (txn : ReadTxn R C) (snap : IsSnapshot R C versions txn) where
    -- A resolution that is put into the cache.
    lift-remember :
        (path : SPath) (r : SdbResult (Option Skey))
        → ((key : Skey)
            → r ≡ ok (some key)
            → resolved R C versions txn.generation path ≡ ok (some key))
        → Gives R C versions txn (lift r >>= remember R C txn path) r
    lift-remember path r h =
        subst (Gives R C versions txn (lift r >>= remember R C txn path)) (bind_ok r) (
          bind-Gives R C versions txn (lift r) r _ ok (lift-Gives R C versions txn r) (λ found e.
            remember-Gives R C versions txn path found (λ key same. h key (e ∙ ap ok same))))

    lookup_path-Gives :
        (path : SPath)
        → Gives R C versions txn
            (lookup_path R C txn path)
            (resolved R C versions txn.generation path)
    unfolding lookup_path
    lookup_path-Gives path =
        cached-Gives R C versions txn path _ (resolved R C versions txn.generation path)
          (on_table-Gives R C versions txn (ok none) _ (λ s. resolve R s path) snap
            (λ s e. lift-remember path (resolve R s path) (λ key h. rw e h)))
          (λ key e. e)

    -- `parent` is what `path` resolves to, and `child_path` is `path` with one more segment.
    abbrev pub IsChild : Skey → Segment → SPath → SPath → Type 0
    IsChild parent seg path child_path =
        (resolved R C versions txn.generation path ≡ ok (some parent))
        × (child_path.segments ≡ path.segments ++ seg ∷ [])

    resolved-child :
        (parent : Skey) (seg : Segment) (path child_path : SPath)
        → (table : Option R.Store)
        → in_table R C versions (ok none) (λ s. resolve R s path) table ≡ ok (some parent)
        → child_path.segments ≡ path.segments ++ seg ∷ []
        → in_table R C versions (ok none) (λ s. resolve R s child_path) table
          ≡ in_table R C versions (ok none) (λ s. child_key R s parent seg) table
    resolved-child parent seg path child_path none h same = refl
    resolved-child parent seg path child_path (some s) h same =
        resolve-child_key R s seg path child_path parent same h

    lookup_child_cached-Gives :
        (parent : Skey) (seg : Segment) (path child_path : SPath)
        → IsChild parent seg path child_path
        → Gives R C versions txn
            (lookup_child_cached R C txn parent seg child_path)
            (resolved R C versions txn.generation child_path)
    unfolding lookup_child_cached
    lookup_child_cached-Gives parent seg path child_path (h, same) =
        let reads = resolved-child parent seg path child_path (versions txn.generation) h same in
        cached-Gives R C versions txn child_path _ (resolved R C versions txn.generation child_path)
          (subst (Gives R C versions txn _) (sym reads) (
            on_table-Gives R C versions txn (ok none) _ (λ s. child_key R s parent seg) snap
              (λ s e.
                lift-remember child_path (child_key R s parent seg) (λ key got. reads ∙ rw e got))))
          (λ key e. e)

    -- What `scalar_at_path` reads of a table.
    abbrev pub scalar_read : SPath → R.Store → Located → SdbResult (Option Scalar)
    scalar_read path s missing = ok none
    scalar_read path s (plain key) = leaf_at R s key path
    scalar_read path s (packed entity rel) =
        Error.◌>>=◌ (blob_of R C versions entity s) (scalar_inside R C txn path rel)

    scalar_located-Gives :
        (path : SPath) (s : R.Store) (found : Located)
        → versions txn.generation ≡ some s
        → Gives R C versions txn (scalar_located R C txn path s found) (scalar_read path s found)
    unfolding scalar_located
    scalar_located-Gives path s missing e = pure-Gives R C versions txn none
    scalar_located-Gives path s (plain key) e = lift-Gives R C versions txn (leaf_at R s key path)
    scalar_located-Gives path s (packed entity rel) e =
        bind-Gives R C versions txn (packed_mem R C txn s entity) (blob_of R C versions entity s) _
          (scalar_inside R C txn path rel) (packed_mem-Gives R C versions txn s entity e)
          (λ mem _. lift-Gives R C versions txn (scalar_inside R C txn path rel mem))

    abbrev pub scalar_in : SPath → R.Store → SdbResult (Option Scalar)
    scalar_in path s = Error.◌>>=◌ (locate R s path) (scalar_read path s)

    pub scalar_at_path-Gives :
        (path : SPath)
        → Gives R C versions txn
            (scalar_at_path R C txn path)
            (at_version R C versions (ok none) txn.generation (scalar_in path))
    unfolding scalar_at_path
    scalar_at_path-Gives path =
        on_table-Gives R C versions txn (ok none) _ (scalar_in path) snap (λ s e.
          bind-Gives R C versions txn (lift (locate R s path)) (locate R s path) _
            (scalar_read path s) (lift-Gives R C versions txn (locate R s path))
            (λ found _. scalar_located-Gives path s found e))

  -- The caches that transactions of any generations leave behind, one read after the other: a lookup
  -- of a path, of a child of what a path resolves to, or of a scalar.
  pub data Reach : PathCache C → Type 0 where
    start : (capacity blob_capacity : ℕ) → Reach (Cache.new C capacity blob_capacity)
    by_path :
        {c : PathCache C}
        → Reach c
        → (txn : ReadTxn R C) → IsSnapshot R C versions txn
        → (t : Option (Option R.Store)) → IsOpened R C versions txn t
        → (path : SPath)
        → Reach (lookup_path R C txn path (record { data_table = t; cache = c })).1.cache
    by_child :
        {c : PathCache C}
        → Reach c
        → (txn : ReadTxn R C) (snap : IsSnapshot R C versions txn) → (t : Option (Option R.Store))
        → IsOpened R C versions txn t
        → (parent : Skey) (seg : Segment) (path child_path : SPath)
        → IsChild txn snap parent seg path child_path
        → Reach
            (lookup_child_cached R C txn parent seg child_path
              (record { data_table = t; cache = c })).1.cache
    by_scalar :
        {c : PathCache C}
        → Reach c
        → (txn : ReadTxn R C) → IsSnapshot R C versions txn
        → (t : Option (Option R.Store)) → IsOpened R C versions txn t
        → (path : SPath)
        → Reach (scalar_at_path R C txn path (record { data_table = t; cache = c })).1.cache

  new-IsSound :
      (capacity blob_capacity : ℕ) → IsSound R C versions (Cache.new C capacity blob_capacity)
  unfolding Cache.new
  new-IsSound capacity blob_capacity = record {
    entries_whole = refl;
    blobs_whole = refl;
    paths_sound = λ path g key e. absurd (nothing (sym (C.paths.new_empty _ path) ∙ e));
    archives_sound = λ g key mem e. absurd (nothing (sym (C.archives.new_empty _ (g, key)) ∙ e));
  }
    where
      nothing : {A : Type 0} {a : A} → none ≡ some a → ⊥
      nothing e = cc

  -- Whatever reads went before, of whatever generations, the caches have of each generation what the
  -- table has that was committed as that generation: the path cache what a path resolves to, and the
  -- blob cache the archive of a packed entity.
  pub Reach-IsSound : {c : PathCache C} → Reach c → IsSound R C versions c
  Reach-IsSound (start capacity blob_capacity) = new-IsSound capacity blob_capacity
  Reach-IsSound (by_path r txn snap t opened path) =
      (lookup_path-Gives txn snap path _ (opened, Reach-IsSound r)).1.1
  Reach-IsSound (by_child r txn snap t opened parent seg path child_path h) =
      (lookup_child_cached-Gives txn snap parent seg path child_path h _
        (opened, Reach-IsSound r)).1.1
  Reach-IsSound (by_scalar r txn snap t opened path) =
      (scalar_at_path-Gives txn snap path _ (opened, Reach-IsSound r)).1.1

  -- On a cache that transactions of any generations have read, `lookup_path` of a transaction returns
  -- what `resolve` returns on the table of its own generation, and `none` where it was never written.
  pub lookup_path-resolve :
      {c : PathCache C}
      → Reach c
      → (txn : ReadTxn R C) → IsSnapshot R C versions txn
      → (t : Option (Option R.Store)) → IsOpened R C versions txn t
      → (path : SPath)
      → (lookup_path R C txn path (record { data_table = t; cache = c })).0
        ≡ resolved R C versions txn.generation path
  lookup_path-resolve r txn snap t opened path =
      (lookup_path-Gives txn snap path _ (opened, Reach-IsSound r)).0

  -- So does `lookup_child_cached`, for a child of what a path resolves to, on the path of the child.
  pub lookup_child_cached-resolve :
      {c : PathCache C}
      → Reach c
      → (txn : ReadTxn R C) (snap : IsSnapshot R C versions txn) → (t : Option (Option R.Store))
      → IsOpened R C versions txn t
      → (parent : Skey) (seg : Segment) (path child_path : SPath)
      → IsChild txn snap parent seg path child_path
      → (lookup_child_cached R C txn parent seg child_path (record { data_table = t; cache = c })).0
        ≡ resolved R C versions txn.generation child_path
  lookup_child_cached-resolve r txn snap t opened parent seg path child_path h =
      (lookup_child_cached-Gives txn snap parent seg path child_path h _
        (opened, Reach-IsSound r)).0
