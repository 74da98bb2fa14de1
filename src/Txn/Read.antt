-- ===== src/Txn/Read.antt =====
-- The path-addressed reads of crates/stratodb/src/txn/read.rs, and the reads of nodes that an accessor
-- uses. The state is the transaction's table, once it is open, and the cache that all transactions
-- of the table share. Loading a value is up to its type.
pub mod Monad
pub mod Sound
pub mod Hits
pub mod Resolves
pub mod Document
use stratodb.Base.{Bool, true, false, Option, none, some, ℕ, List, Text}
use stratodb.Error.{Segment, SPath, SdbResult, ok, err, engine, corrupt}
use stratodb.Error
use stratodb.Crates.{Crates}
use stratodb.Key.{Skey}
use stratodb.Key
use stratodb.Scalar.{Scalar}
use stratodb.Node.{Node, NodeKind}
use stratodb.Engine.Backend.{ReadNodes}
use stratodb.Engine.Archived.{Rkyv, ArchTree, new_archived, archived_nodes}
use stratodb.Cache.{Caches, PathCache}
use stratodb.Cache
use stratodb.Tree.{
  Located, missing, plain, packed, read_node, locate, child_key, leaf_at, scalar_at, kind_of,
  list_len, object_keys, resolve_from, resolve,
}
use stratodb.Tree.Packed
use stratodb.Txn.Read.Monad.{Session, Action, ◌>>=◌, pure, lift, fail, on_cache}

module _ ⦃crates : Crates⦄ (R : ReadNodes) (C : Caches) where
  -- What the engine answers when the table of a snapshot is opened.
  pub data Opened : Type 0 where
    table : R.Store → Opened
    does_not_exist failed : Opened

  -- `ReadTxn`, without the engine's transaction but for that answer.
  pub record ReadTxn : Type 0 where
    pub generation : ℕ
    pub opened : Opened

  -- `get_or_init`.
  unfoldable pub keep_table : Option R.Store → Action R C (Option R.Store)
  keep_table t session = (ok t, record session { data_table = some t })

  unfoldable pub open_table : Opened → Action R C (Option R.Store)
  unfolding keep_table fail
  open_table (table s) = keep_table (some s)
  open_table does_not_exist = keep_table none
  open_table failed = fail engine

  -- `open`.
  unfoldable pub open_data : ReadTxn → Action R C (Option R.Store)
  unfolding open_table
  open_data txn session = elim session.data_table [
    | some cached ↦ (ok cached, session)
    | none ↦ open_table txn.opened session
  ]

  module _ (txn : ReadTxn) where
    -- A read of the table; `absent` where it was never written.
    unfoldable pub on_table : {A : Type 0} → SdbResult A → (R.Store → Action R C A) → Action R C A
    unfolding open_data ◌>>=◌ lift
    on_table absent f = open_data txn >>= λ t. elim t [ none ↦ lift absent | some s ↦ f s ]

    unfoldable pub kind_at : ⦃rkyv : Rkyv⦄ → SPath → Action R C (Option NodeKind)
    unfolding on_table lift Packed.kind
    kind_at path = on_table (ok none) (λ s. lift (Packed.kind R s path))

    -- `exists`, of a path.
    unfoldable pub exists_at : ⦃rkyv : Rkyv⦄ → SPath → Action R C Bool
    unfolding kind_at ◌>>=◌ pure
    exists_at path = kind_at path >>= λ found. pure (elim found [ some _ ↦ true | none ↦ false ])

    -- A resolution, put into the cache where there is one.
    unfoldable pub remember : SPath → Option Skey → Action R C (Option Skey)
    unfolding on_cache pure ◌>>=◌ Cache.put
    remember path none = pure none
    remember path (some key) =
        on_cache (λ c. Cache.put C c txn.generation path key) >>= λ _. pure (some key)

    -- A hit of the cache is the result.
    abbrev pub on_miss : {A : Type 0} → Action R C (Option A) → Option A → Action R C (Option A)
    unfolding pure
    on_miss read (some a) = pure (some a)
    on_miss read none = read

    -- A read of the cache of paths, and what is done on a miss.
    unfoldable pub cached : SPath → Action R C (Option Skey) → Action R C (Option Skey)
    unfolding on_cache ◌>>=◌ Cache.get
    cached path resolved = on_cache (λ c. Cache.get C c txn.generation path) >>= on_miss resolved

    unfoldable pub lookup_path : SPath → Action R C (Option Skey)
    unfolding cached on_table remember lift ◌>>=◌ resolve
    lookup_path path =
        cached path (on_table (ok none) (λ s. lift (resolve R s path) >>= remember path))

    unfoldable pub lookup_child : Skey → Segment → Action R C (Option Skey)
    unfolding on_table lift child_key
    lookup_child parent seg = on_table (ok none) (λ s. lift (child_key R s parent seg))

    unfoldable pub lookup_child_cached : Skey → Segment → SPath → Action R C (Option Skey)
    unfolding cached on_table remember lift ◌>>=◌ child_key
    lookup_child_cached parent seg child_path =
        cached child_path
          (on_table (ok none) (λ s. lift (child_key R s parent seg) >>= remember child_path))

    unfoldable pub lookup_scalar : Skey → Action R C Scalar
    unfolding on_table lift scalar_at
    lookup_scalar key = on_table (err corrupt) (λ s. lift (scalar_at R s key))

    unfoldable pub lookup_kind : Skey → Action R C (Option NodeKind)
    unfolding on_table lift kind_of
    lookup_kind key = on_table (ok none) (λ s. lift (kind_of R s key))

    unfoldable pub lookup_len : Skey → Action R C ℕ
    unfolding on_table lift list_len
    lookup_len key = on_table (err corrupt) (λ s. lift (list_len R s key))

    unfoldable pub lookup_object_keys : Skey → Action R C (List Text)
    unfolding on_table lift object_keys
    lookup_object_keys key = on_table (err corrupt) (λ s. lift (object_keys R s key))

    module _ ⦃rkyv : Rkyv⦄ where
      -- The blob of a node that was read, put into the cache.
      unfoldable pub decode_blob : Skey → Option Node → Action R C (Option ArchTree)
      unfolding lift on_cache pure ◌>>=◌ new_archived Cache.put_blob
      decode_blob key (some (Node.packed root blob)) = lift (new_archived blob) >>= λ mem.
          on_cache (λ c. Cache.put_blob C c txn.generation key mem) >>= λ _. pure (some mem)
      decode_blob key _ = pure none

      unfoldable pub packed_mem : R.Store → Skey → Action R C (Option ArchTree)
      unfolding on_cache lift ◌>>=◌ read_node decode_blob Cache.get_blob
      packed_mem s key =
          on_cache (λ c. Cache.get_blob C c txn.generation key)
          >>= on_miss (lift (read_node R s key) >>= decode_blob key)

      -- The scalar inside a blob.
      unfoldable pub scalar_inside : SPath → SPath → Option ArchTree → SdbResult (Option Scalar)
      unfolding resolve_from leaf_at archived_nodes
      scalar_inside path rel none = err corrupt
      scalar_inside path rel (some mem) =
          Error.◌>>=◌ (resolve_from archived_nodes mem Key.root rel) (λ found. elim found [
            | some key ↦ leaf_at archived_nodes mem key path
            | none ↦ ok none
          ])

      unfoldable pub scalar_located : SPath → R.Store → Located → Action R C (Option Scalar)
      unfolding pure lift ◌>>=◌ leaf_at packed_mem scalar_inside
      scalar_located path s missing = pure none
      scalar_located path s (plain key) = lift (leaf_at R s key path)
      scalar_located path s (packed entity rel) =
          packed_mem s entity >>= λ mem. lift (scalar_inside path rel mem)

      unfoldable pub scalar_at_path : SPath → Action R C (Option Scalar)
      unfolding on_table lift ◌>>=◌ locate scalar_located
      scalar_at_path path =
          on_table (ok none) (λ s. lift (locate R s path) >>= scalar_located path s)
