-- ===== src/Tree/Refines/Read.antt =====
-- `get_scalar` and `kind` of crates/stratodb/src/tree.rs read the document that a store holds, in
-- plain nodes and in packed entities alike.
use stratodb.Base.{◌≡◌, refl, sym, ap, ◌∙◌, List, Option, none, some}
use stratodb.Error.{Segment, SPath, SdbResult, ok, err, panic, unexpected_node, ◌>>=◌}
use stratodb.Crates.{Crates}
use stratodb.Key.{Skey}
use stratodb.Key
use stratodb.Scalar.{Scalar}
use stratodb.Node.{NodeKind, as_str}
use stratodb.Node
use stratodb.Engine.Backend.{ReadNodes, NodeStep}
use stratodb.Engine.Mem.{MemNodes, mem_reads}
use stratodb.Engine.Archived.{Rkyv}
use stratodb.Value.{Value, subtree}
use stratodb.Tree.{
  Located, missing, plain, packed, read_node, locate, locate_from, leaf_at, kind_of,
}
use stratodb.Tree.Packed.{decode_packed, inside, get_scalar, kind}
use stratodb.Tree.Holds.{Classifies, Shape, Holds}
use stratodb.Tree.Refines.{Landed, locate_from-subtree}
use stratodb.Tree.Refines.Walk.{NonePacked, Walked, walk-subtree}

module _ ⦃crates : Crates⦄ where
  -- What a document says of the place at `path`.
  abbrev pub scalar_of : SPath → Option Value → SdbResult (Option Scalar)
  scalar_of path none = ok none
  scalar_of path (some (Value.leaf x)) = ok (some x)
  scalar_of path (some (Value.list vs)) = err (unexpected_node path "leaf" "list")
  scalar_of path (some (Value.node m)) = err (unexpected_node path "leaf" "object")

  abbrev pub kind_at : Option Value → Option NodeKind
  kind_at none = none
  kind_at (some (Value.leaf x)) = some NodeKind.leaf
  kind_at (some (Value.list vs)) = some NodeKind.list
  kind_at (some (Value.node m)) = some NodeKind.object

  abbrev pub WalkedIn : MemNodes → Option Skey → Option Value → Type 0
  unfolding mem_reads
  WalkedIn mem = Walked mem_reads mem

  -- A read inside a decoded blob.
  abbrev pub in_blob :
      {A : Type 0}
      → ((M : ReadNodes) → M.Store → Skey → SdbResult (Option A))
      → MemNodes
      → Skey
      → SdbResult (Option A)
  unfolding mem_reads
  in_blob f mem = f mem_reads mem

  module _ (R : ReadNodes) (s : R.Store) (Packed : Skey → Value → Type 0) where
    pub Shape-leaf_at :
        (k : Skey) (v : Value) (path : SPath)
        → Shape R s Packed k v
        → leaf_at R s k path ≡ scalar_of path (some v)
    unfolding leaf_at read_node as_str Node.kind
    Shape-leaf_at k (Value.leaf x) path (h, _) = rw h refl
    Shape-leaf_at k (Value.list vs) path (items, h, _, _) = rw h refl
    Shape-leaf_at k (Value.node m) path (h, _, _) = rw h refl

    Shape-kind_of :
        (k : Skey) (v : Value) → Shape R s Packed k v → kind_of R s k ≡ ok (kind_at (some v))
    unfolding kind_of read_node Node.kind
    Shape-kind_of k (Value.leaf x) (h, _) = rw h refl
    Shape-kind_of k (Value.list vs) (items, h, _, _) = rw h refl
    Shape-kind_of k (Value.node m) (h, _, _) = rw h refl

  -- The document under a key of a decoded blob.
  abbrev pub HoldsIn : MemNodes → Skey → Value → Type 0
  unfolding mem_reads
  HoldsIn mem k v = Shape mem_reads mem NonePacked k v

  module _ ⦃rkyv : Rkyv⦄ (R : ReadNodes) (s : R.Store) where
    -- A packed entity with a blob of the document `v`.
    pub record PackedAs (k : Skey) (v : Value) : Type 0 where
      pub steps : R.node_step s k ≡ ok (some NodeStep.packed)
      pub mem : MemNodes
      pub decodes : decode_packed R s k ≡ ok mem
      pub holds : HoldsIn mem Key.root v

    -- A read gives what a document says, both at a node of the store and inside a blob.
    abbrev pub Agrees :
        {A : Type 0}
        → ((M : ReadNodes) → M.Store → Skey → SdbResult (Option A))
        → (Option Value → SdbResult (Option A))
        → Type 0
    Agrees f g =
        (g none ≡ ok none)
        × ((k : Skey) (v : Value) → Shape R s PackedAs k v → f R s k ≡ g (some v))
        × ((mem : MemNodes) (k : Skey) (v : Value) → HoldsIn mem k v → in_blob f mem k ≡ g (some v))

    module _ {A : Type 0} (f : (M : ReadNodes) → M.Store → Skey → SdbResult (Option A))
        (g : Option Value → SdbResult (Option A)) (agrees : Agrees f g)
        (classes : Classifies R) where
      walked-read :
          (mem : MemNodes) (found : Option Skey) (below : Option Value)
          → WalkedIn mem found below
          → elim found [ some k ↦ in_blob f mem k | none ↦ ok none ] ≡ g below
      unfolding WalkedIn
      walked-read mem none none h = sym agrees.0
      walked-read mem (some k) (some w) h = agrees.2 mem k w h
      walked-read mem none (some w) h = absurd h
      walked-read mem (some k) none h = absurd h

      inside-subtree :
          (mem : MemNodes) (v : Value) (rel : SPath)
          → HoldsIn mem Key.root v
          → inside R mem rel (in_blob f mem) ≡ g (subtree v rel.segments)
      unfolding inside WalkedIn HoldsIn in_blob mem_reads
      inside-subtree mem v rel h =
          let (found, e, at) = walk-subtree mem_reads mem rel.segments Key.root v h in
          rw e (walked-read mem found (subtree v rel.segments) at)

      -- The rest of a read behind `locate`.
      abbrev pub Reads : SdbResult Located → SdbResult (Option A)
      Reads located = located >>= λ found. elim found [
        | missing ↦ ok none
        | plain k ↦ f R s k
        | packed entity rel ↦ decode_packed R s entity >>= λ mem. inside R mem rel (in_blob f mem)
      ]

      read-Landed :
          (found : SdbResult Located) (v : Value) (segs : List Segment)
          → Landed R classes s PackedAs found v segs
          → Reads found ≡ g (subtree v segs)
      read-Landed (ok missing) v segs h = sym agrees.0 ∙ ap g (sym h)
      read-Landed (ok (plain c)) v segs (w, e, h) = agrees.1 c w h ∙ ap g (sym e)
      read-Landed (ok (packed c rel)) v segs (w, e, p) =
          rw p.decodes (inside-subtree p.mem w rel p.holds) ∙ ap g (sym e)
      read-Landed (err _) v segs h = absurd h
      read-Landed panic v segs h = absurd h

      -- A read of the store agrees with the document.
      read-subtree :
          (path : SPath) (v : Value)
          → Holds R s PackedAs Key.root v
          → Reads (locate R s path) ≡ g (subtree v path.segments)
      unfolding locate
      read-subtree path v h =
          read-Landed (locate_from R s Key.root path.segments) v path.segments
            (locate_from-subtree R classes s PackedAs path.segments Key.root v (λ k w p. p.steps) h)

    -- Where the nodes of the store make up the document `v`, `get_scalar` returns the leaf that `v`
    -- has at the path, `none` where it has nothing, and `UnexpectedNode` at a list or an object.
    pub get_scalar-subtree :
        (classes : Classifies R) (path : SPath) (v : Value)
        → Holds R s PackedAs Key.root v
        → get_scalar R s path ≡ scalar_of path (subtree v path.segments)
    unfolding get_scalar in_blob HoldsIn
    get_scalar-subtree classes path v =
        read-subtree (λ M t k. leaf_at M t k path) (scalar_of path)
          (
            refl,
            (λ k w. Shape-leaf_at R s PackedAs k w path),
            (λ mem k w. Shape-leaf_at mem_reads mem NonePacked k w path),
          )
          classes path v

    -- Where the nodes of the store make up the document `v`, `kind` returns the kind of what `v` has
    -- at the path, and `none` where it has nothing.
    pub kind-subtree :
        (classes : Classifies R) (path : SPath) (v : Value)
        → Holds R s PackedAs Key.root v
        → kind R s path ≡ ok (kind_at (subtree v path.segments))
    unfolding kind in_blob HoldsIn
    kind-subtree classes path v =
        read-subtree kind_of (λ found. ok (kind_at found))
          (
            refl,
            (λ k w. Shape-kind_of R s PackedAs k w),
            (λ mem k w. Shape-kind_of mem_reads mem NonePacked k w),
          )
          classes path v
