-- ===== src/Tests/Values.antt =====
-- A document whose fields are set by paths.
use stratodb.Base.{◌≡◌, List, [], ◌∷◌, true, false, some}
use stratodb.Error.{Segment, name, index}
use stratodb.Scalar.{Scalar}
use stratodb.Value.{Value, leaf, node, entry, empty, subtree, set_in}
use stratodb.Value.Set.{set_in-subtree}
use stratodb.Tests.Toy.{toy_crates}

abbrev settings : Value
settings = node (entry (97 ∷ []) (leaf (Scalar.bool true)) empty)

abbrev place : List Segment
place = name (98 ∷ []) ∷ index 0 ∷ []

set_in-subtree_example :
    ((set_in settings place (leaf Scalar.null)).0 ≡ true
      → subtree (set_in settings place (leaf Scalar.null)).1 place ≡ some (leaf Scalar.null))
    × ((set_in settings place (leaf Scalar.null)).0 ≡ false
        → (set_in settings place (leaf Scalar.null)).1 ≡ settings)
set_in-subtree_example = set_in-subtree place settings (leaf Scalar.null)
