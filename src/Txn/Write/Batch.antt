-- ===== src/Txn/Write/Batch.antt =====
-- What `store_many` of crates/stratodb/src/txn/write.rs asks of the paths of a batch
-- (`has_ancestor_descendant_pair`). The values of the batch play no part.

use stratodb.Base.{ℕ, zero, suc, ◌-◌, List, [], ◌∷◌, Bool, true, false, ◌&&◌, ◌||◌, length, take}
use stratodb.Error.{Segment, SPath}
use stratodb.Index.Pattern.{seg_eq}

-- The equality of `[Segment]`.
unfoldable pub segs_eq : List Segment → List Segment → Bool
unfolding seg_eq
segs_eq [] [] = true
segs_eq [] (t ∷ ts) = false
segs_eq (s ∷ ss) [] = false
segs_eq (s ∷ ss) (t ∷ ts) = seg_eq s t && segs_eq ss ts

-- `contains` of the set that is collected from the paths.
unfoldable pub contains : List SPath → List Segment → Bool
unfolding segs_eq
contains [] segs = false
contains (p ∷ paths) segs = segs_eq p.segments segs || contains paths segs

-- `any` over the lengths from the second number on, as many as the third says.
unfoldable pub any_prefix : List SPath → List Segment → ℕ → ℕ → Bool
unfolding contains
any_prefix paths segs len zero = false
any_prefix paths segs len (suc count) =
    contains paths (take len segs) || any_prefix paths segs (suc len) count

unfoldable pub any_descendant : List SPath → List SPath → Bool
unfolding any_prefix
any_descendant paths [] = false
any_descendant paths (p ∷ items) =
    any_prefix paths p.segments 1 (length p.segments - 1) || any_descendant paths items

unfoldable pub has_ancestor_descendant_pair : List SPath → Bool
unfolding any_descendant
has_ancestor_descendant_pair items = any_descendant items items
