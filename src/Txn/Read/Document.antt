-- ===== src/Txn/Read/Document.antt =====
-- `scalar_at_path` of crates/stratodb/src/txn/read.rs reads the document that a table holds, in plain
-- nodes and in the archives of packed entities, whatever the cache has.
use stratodb.Base.{ℕ, ◌≡◌, refl, sym, ap, ◌∙◌, List, Option, none, some}
use stratodb.Error.{Segment, SPath, SdbResult, ok, err, panic}
use stratodb.Error
use stratodb.Crates.{Crates}
use stratodb.Key.{Skey}
use stratodb.Key
use stratodb.Engine.Backend.{ReadNodes, NodeStep}
use stratodb.Engine.Archived.{Rkyv, ArchTree, archived_nodes}
use stratodb.Value.{Value, subtree}
use stratodb.Cache.{Caches, PathCache}
use stratodb.Tree.{
  Located, missing, plain, packed, locate, locate_from, leaf_at, resolve_from, resolve_from_checked,
}
use stratodb.Tree.Holds.{Classifies, Shape, Holds}
use stratodb.Tree.Refines.{Landed, locate_from-subtree}
use stratodb.Tree.Refines.Walk.{NonePacked, Walked, walk-subtree}
use stratodb.Tree.Refines.Read.{scalar_of, Shape-leaf_at}
use stratodb.Txn.Read.{ReadTxn, scalar_inside, scalar_at_path}
use stratodb.Txn.Read.Sound.{blob_of, IsSnapshot, IsOpened}
use stratodb.Txn.Read.Resolves.{Reach, Reach-IsSound, scalar_read, scalar_in, scalar_at_path-Gives}

module _ ⦃crates : Crates⦄ where
  -- The document under a key of an archive.
  abbrev pub InArchive : ArchTree → Skey → Value → Type 0
  unfolding archived_nodes
  InArchive mem k v = Shape archived_nodes mem NonePacked k v

  module _ ⦃rkyv : Rkyv⦄ (R : ReadNodes) (C : Caches) (versions : ℕ → Option R.Store) where
    -- A packed entity with an archive of the document `v`.
    pub record ArchivedAs (s : R.Store) (k : Skey) (v : Value) : Type 0 where
      pub steps : R.node_step s k ≡ ok (some NodeStep.packed)
      pub mem : ArchTree
      pub decodes : blob_of R C versions k s ≡ ok (some mem)
      pub holds : InArchive mem Key.root v

    module _ (txn : ReadTxn R C) (snap : IsSnapshot R C versions txn) (classes : Classifies R)
        (s : R.Store) where
      scalar_inside-subtree :
          (path rel : SPath) (mem : ArchTree) (v : Value)
          → InArchive mem Key.root v
          → scalar_inside R C txn path rel (some mem) ≡ scalar_of path (subtree v rel.segments)
      unfolding scalar_inside resolve_from resolve_from_checked archived_nodes InArchive
      scalar_inside-subtree path rel mem v h =
          let (found, e, at) = walk-subtree archived_nodes mem rel.segments Key.root v h in
          rw e (at_key found (subtree v rel.segments) at)
        where
          at_key :
              (found : Option Skey) (below : Option Value)
              → Walked archived_nodes mem found below
              → elim found [ some k ↦ leaf_at archived_nodes mem k path | none ↦ ok none ]
                ≡ scalar_of path below
          at_key none none h = refl
          at_key (some k) (some w) h = Shape-leaf_at archived_nodes mem NonePacked k w path h
          at_key none (some w) h = absurd h
          at_key (some k) none h = absurd h

      -- The read behind `locate`.
      read-Landed :
          (path : SPath) (found : SdbResult Located) (v : Value) (segs : List Segment)
          → Landed R classes s (ArchivedAs s) found v segs
          → Error.◌>>=◌ found (scalar_read R C versions txn snap path s)
            ≡ scalar_of path (subtree v segs)
      read-Landed path (ok missing) v segs h = ap (scalar_of path) (sym h)
      read-Landed path (ok (plain c)) v segs (w, e, h) =
          Shape-leaf_at R s (ArchivedAs s) c w path h ∙ ap (scalar_of path) (sym e)
      read-Landed path (ok (packed c rel)) v segs (w, e, p) =
          rw p.decodes (scalar_inside-subtree path rel p.mem w p.holds)
          ∙ ap (scalar_of path) (sym e)
      read-Landed path (err _) v segs h = absurd h
      read-Landed path panic v segs h = absurd h

      scalar_in-subtree :
          (path : SPath) (v : Value)
          → Holds R s (ArchivedAs s) Key.root v
          → scalar_in R C versions txn snap path s ≡ scalar_of path (subtree v path.segments)
      unfolding locate
      scalar_in-subtree path v h =
          read-Landed path (locate_from R s Key.root path.segments) v path.segments (
            locate_from-subtree R classes s (ArchivedAs s) path.segments Key.root v
              (λ k w p. p.steps) h)

    -- On a cache that transactions of any generations have read, where the table of a transaction's
    -- generation makes up the document `v`, `scalar_at_path` returns the leaf that `v` has at the path,
    -- `none` where it has nothing, and `UnexpectedNode` at a list or an object.
    pub scalar_at_path-subtree :
        {c : PathCache C}
        → Reach R C versions c
        → (txn : ReadTxn R C) (snap : IsSnapshot R C versions txn) → (t : Option (Option R.Store))
        → IsOpened R C versions txn t
        → Classifies R
        → (s : R.Store) → versions txn.generation ≡ some s
        → (path : SPath) (v : Value) → Holds R s (ArchivedAs s) Key.root v
        → (scalar_at_path R C txn path (record { data_table = t; cache = c })).0
          ≡ scalar_of path (subtree v path.segments)
    scalar_at_path-subtree r txn snap t opened classes s e path v h =
        let given =
          scalar_at_path-Gives R C versions txn snap path _
            (opened, Reach-IsSound R C versions r) in
        rw e at given.0 ∙ scalar_in-subtree txn snap classes s path v h
