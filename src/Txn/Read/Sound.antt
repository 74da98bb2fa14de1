-- ===== src/Txn/Read/Sound.antt =====
-- The cache of crates/stratodb/src/cache.rs under the reads of crates/stratodb/src/txn/read.rs: what it
-- has of a generation is what the table has that was committed as that generation.
use stratodb.Base.{ℕ, ◌≡◌, refl, sym, ap, false, Option, none, some}
use stratodb.Error.{Segment, SPath, SdbResult, ok, err, panic}
use stratodb.Error
use stratodb.Crates.{Crates}
use stratodb.Key.{Skey}
use stratodb.Node.{Node}
use stratodb.Engine.Backend.{ReadNodes}
use stratodb.Engine.Archived.{Rkyv, ArchTree, new_archived}
use stratodb.Cache.{Caches, PathCache}
use stratodb.Tree.{read_node, resolve}
use stratodb.Txn.Read.Monad.{Session, Action, and_then, ◌>>=◌, pure, lift}
use stratodb.Txn.Read.{
  Opened, table, does_not_exist, ReadTxn, keep_table, open_table, open_data, on_table,
}

module _ ⦃crates : Crates⦄ ⦃rkyv : Rkyv⦄ (R : ReadNodes) (C : Caches)
    -- The table that was committed as each generation, where it was ever written.
    (versions : ℕ → Option R.Store) where
  -- A read of a table, if it was ever written.
  abbrev pub in_table :
      {A : Type 0} → SdbResult A → (R.Store → SdbResult A) → Option R.Store → SdbResult A
  in_table absent f none = absent
  in_table absent f (some s) = f s

  -- A read of the table of a generation.
  abbrev pub at_version : {A : Type 0} → SdbResult A → ℕ → (R.Store → SdbResult A) → SdbResult A
  at_version absent g f = in_table absent f (versions g)

  -- What a path resolves to.
  abbrev pub resolved : ℕ → SPath → SdbResult (Option Skey)
  resolved g path = at_version (ok none) g (λ s. resolve R s path)

  abbrev pub archive_of : Option Node → SdbResult (Option ArchTree)
  archive_of (some (Node.packed root blob)) = Error.◌>>=◌ (new_archived blob) (λ mem. ok (some mem))
  archive_of _ = ok none

  -- The archive of a packed entity, and `none` of another node.
  abbrev pub blob_of : Skey → R.Store → SdbResult (Option ArchTree)
  blob_of key s = Error.◌>>=◌ (read_node R s key) archive_of

  pub record IsSound (c : PathCache C) : Type 0 where
    pub entries_whole : c.entries.poisoned ≡ false
    pub blobs_whole : c.blobs.poisoned ≡ false
    pub paths_sound :
        (path : SPath) (g : ℕ) (key : Skey)
        → C.paths.peek c.entries.guarded path ≡ some (g, key)
        → resolved g path ≡ ok (some key)
    pub archives_sound :
        (g : ℕ) (key : Skey) (mem : ArchTree)
        → C.archives.peek c.blobs.guarded (g, key) ≡ some mem
        → at_version (ok none) g (blob_of key) ≡ ok (some mem)

  -- What the engine answers for the table of a generation.
  abbrev pub answer : Option R.Store → Opened R C
  answer none = does_not_exist
  answer (some s) = table s

  module _ (txn : ReadTxn R C) where
    -- The transaction reads the table of its generation.
    abbrev pub IsSnapshot : Type 0
    IsSnapshot = txn.opened ≡ answer (versions txn.generation)

    abbrev pub IsOpened : Option (Option R.Store) → Type 0
    IsOpened none = Unit
    IsOpened (some t) = t ≡ versions txn.generation

    abbrev pub IsSession : Session R C → Type 0
    IsSession session = IsOpened session.data_table × IsSound session.cache

    abbrev pub Returned : {A : Type 0} → SdbResult A → SdbResult A × Session R C → Type 0
    Returned r p = (p.0 ≡ r) × IsSession p.1

    -- From any sound session the action returns `r`, and the session is sound again.
    abbrev pub Gives : {A : Type 0} → Action R C A → SdbResult A → Type 0
    Gives m r = (session : Session R C) → IsSession session → Returned r (m session)

    module _ {A B : Type 0} where
      and_then-Returned :
          (p : SdbResult A × Session R C) (r : SdbResult A) (f : A → Action R C B)
          (g : A → SdbResult B)
          → Returned r p
          → ((a : A) → r ≡ ok a → Gives (f a) (g a))
          → Returned (Error.◌>>=◌ r g) (and_then p f)
      and_then-Returned (ok a, session) r f g (e, h) next = rw (← e) (next a (sym e) session h)
      and_then-Returned (err x, session) r f g (e, h) next = rw (← e) (refl, h)
      and_then-Returned (panic, session) r f g (e, h) next = rw (← e) (refl, h)

      pub bind-Gives :
          (m : Action R C A) (r : SdbResult A) (f : A → Action R C B) (g : A → SdbResult B)
          → Gives m r
          → ((a : A) → r ≡ ok a → Gives (f a) (g a))
          → Gives (m >>= f) (Error.◌>>=◌ r g)
      unfolding ◌>>=◌
      bind-Gives m r f g first next session h =
          and_then-Returned (m session) r f g (first session h) next

    pub lift-Gives : {A : Type 0} (r : SdbResult A) → Gives (lift r) r
    unfolding lift
    lift-Gives r session h = (refl, h)

    pub pure-Gives : {A : Type 0} (a : A) → Gives (pure a) (ok a)
    unfolding pure
    pure-Gives a session h = (refl, h)

    open_table-Returned :
        (t : Option R.Store) (session : Session R C)
        → t ≡ versions txn.generation
        → IsSound session.cache
        → Returned (ok t) (open_table R C (answer t) session)
    unfolding open_table keep_table
    open_table-Returned none session e h = (refl, (e, h))
    open_table-Returned (some s) session e h = (refl, (e, h))

    pub open_data-Gives : IsSnapshot → Gives (open_data R C txn) (ok (versions txn.generation))
    unfolding open_data
    open_data-Gives snap session (opened, sound) =
        elim session.data_table
            as (λ d.
              IsOpened d
              → Returned (ok (versions txn.generation)) (elim d [
                | some t ↦ (ok t, session)
                | none ↦ open_table R C txn.opened session
              ])) [
                | some t ↦ λ e. (ap ok e, (opened, sound))
                | none ↦
                    λ _. rw snap (open_table-Returned (versions txn.generation) session refl sound)
              ]
          opened

    pub on_table-Gives :
        {A : Type 0} (absent : SdbResult A) (f : R.Store → Action R C A) (g : R.Store → SdbResult A)
        → IsSnapshot
        → ((s : R.Store) → versions txn.generation ≡ some s → Gives (f s) (g s))
        → Gives (on_table R C txn absent f) (at_version absent txn.generation g)
    unfolding on_table
    on_table-Gives absent f g snap each =
        bind-Gives (open_data R C txn) (ok (versions txn.generation)) _ (in_table absent g)
          (open_data-Gives snap) (λ t e. at_table t (same e))
      where
        same :
            {t : Option R.Store} → ok (versions txn.generation) ≡ ok t → versions txn.generation ≡ t
        same e = cc

        at_table :
            (t : Option R.Store)
            → versions txn.generation ≡ t
            → Gives (elim t [ none ↦ lift absent | some s ↦ f s ]) (in_table absent g t)
        at_table none e = lift-Gives absent
        at_table (some s) e = each s e
