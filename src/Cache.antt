-- ===== src/Cache.antt =====
-- crates/stratodb/src/cache.rs: the caches of one table, of the keys that paths resolve to and of the
-- blobs of packed entities. The crate `lru` is an interface with the laws that it documents: what is
-- found was put there, and a `get` moves an entry and removes none. A `Mutex` is what it guards and
-- whether a thread panicked with the lock held; an `Arc` is what it points to.
use stratodb.Base.{ℕ, ◌≡◌, ◌⊎◌, Bool, false, Option, none, some, ◌==◌, if◌then◌else◌}
use stratodb.Error.{SPath, SdbResult, ok, err, cannot_access}
use stratodb.Crates.{Crates}
use stratodb.Key.{Skey}
use stratodb.Engine.Archived.{ArchTree}

-- `LruCache`; `peek` says what it has.
pub record LruCache (K V : Type 0) : Type 1 where
  pub Lru : Type 0
  pub new : ℕ → Lru
  pub get : Lru → K → Option V × Lru
  pub put : Lru → K → V → Lru
  pub peek : Lru → K → Option V
  pub new_empty : (capacity : ℕ) (k : K) → peek (new capacity) k ≡ none
  pub get-peek : (l : Lru) (k : K) → (get l k).0 ≡ peek l k
  pub get_keeps : (l : Lru) (k j : K) → peek (get l k).1 j ≡ peek l j
  pub put_self : (l : Lru) (k : K) (v : V) → peek (put l k v) k ≡ some v
  pub put_source :
      (l : Lru) (k : K) (v : V) (j : K) (w : V)
      → peek (put l k v) j ≡ some w
      → ((j ≡ k) × (w ≡ v)) ⊎ (peek l j ≡ some w)

-- `Mutex`, with what the lock guards.
pub record Mutex (A : Type 0) : Type 0 where
  pub poisoned : Bool
  pub guarded : A

-- `lock` with its error, and the use of the guard.
unfoldable pub locked : {A B : Type 0} → Mutex A → (A → B × A) → SdbResult B × Mutex A
locked m f =
    if m.poisoned
    then (err cannot_access, m)
    else (let (b, a) = f m.guarded in (ok b, record m { guarded = a }))

-- `NonZeroUsize::new(capacity).unwrap_or(NonZeroUsize::MIN)`.
unfoldable pub at_least_one : ℕ → ℕ
at_least_one capacity = if capacity == 0 then 1 else capacity

module _ ⦃crates : Crates⦄ where
  pub record Caches : Type 1 where
    pub paths : LruCache SPath (ℕ × Skey)
    pub archives : LruCache (ℕ × Skey) ArchTree

  pub record PathCache (C : Caches) : Type 0 where
    pub entries : Mutex C.paths.Lru
    pub blobs : Mutex C.archives.Lru

  -- The entry is of the generation that is asked for.
  unfoldable pub tagged_with : ℕ → Option (ℕ × Skey) → Option Skey
  tagged_with generation none = none
  tagged_with generation (some (tagged, key)) = if tagged == generation then some key else none

  module _ (C : Caches) where
    unfoldable pub new : ℕ → ℕ → PathCache C
    unfolding at_least_one
    new capacity blob_capacity = record {
      entries = record { poisoned = false; guarded = C.paths.new (at_least_one capacity) };
      blobs = record { poisoned = false; guarded = C.archives.new (at_least_one blob_capacity) };
    }

    unfoldable pub get_blob : PathCache C → ℕ → Skey → SdbResult (Option ArchTree) × PathCache C
    unfolding locked
    get_blob cache generation key =
        let (result, blobs) = locked cache.blobs (λ lru. C.archives.get lru (generation, key)) in
        (result, record cache { blobs = blobs })

    unfoldable pub put_blob : PathCache C → ℕ → Skey → ArchTree → SdbResult (Unit {0}) × PathCache C
    unfolding locked
    put_blob cache generation key blob =
        let (result, blobs) =
          locked cache.blobs (λ lru. (tt, C.archives.put lru (generation, key) blob)) in
        (result, record cache { blobs = blobs })

    unfoldable pub get : PathCache C → ℕ → SPath → SdbResult (Option Skey) × PathCache C
    unfolding locked tagged_with
    get cache generation path =
        let (result, entries) =
          locked cache.entries
            (λ lru. let (hit, lru') = C.paths.get lru path in (tagged_with generation hit, lru')) in
        (result, record cache { entries = entries })

    unfoldable pub put : PathCache C → ℕ → SPath → Skey → SdbResult (Unit {0}) × PathCache C
    unfolding locked
    put cache generation path key =
        let (result, entries) =
          locked cache.entries (λ lru. (tt, C.paths.put lru path (generation, key))) in
        (result, record cache { entries = entries })
