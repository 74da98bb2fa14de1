-- ===== src/Node.antt =====
-- crates/stratodb/src/node/: the nodes of the tree and their kinds.
use Prim.Native.String.{String}
use stratodb.Base.{ℕ, List, ◌≡◌, refl, ◌==◌, if◌then◌else◌}
use stratodb.Error.{SdbResult, ok, err, corrupt}
use stratodb.Crates.{Crates}
use stratodb.Key.{Skey}
use stratodb.Scalar.{Scalar}

pub data NodeKind : Type 0 where
  object list leaf : NodeKind

-- The label of a kind in errors.
unfoldable pub as_str : NodeKind → String
as_str object = "object"
as_str list = "list"
as_str leaf = "leaf"

unfoldable pub as_tag : NodeKind → ℕ
as_tag object = 0
as_tag list = 1
as_tag leaf = 2

unfoldable pub from_tag : ℕ → SdbResult NodeKind
from_tag tag =
    if tag == 0
    then ok object
    else if tag == 1
    then ok list
    else if tag == 2
    then ok leaf
    else err corrupt

pub from_tag-as_tag : (kind : NodeKind) → from_tag (as_tag kind) ≡ ok kind
unfolding from_tag as_tag
from_tag-as_tag object = refl
from_tag-as_tag list = refl
from_tag-as_tag leaf = refl

module _ ⦃crates : Crates⦄ where
  pub data Node : Type 0 where
    object : Node
    list : List Skey → Node
    leaf : Scalar → Node
    packed : NodeKind → List ℕ → Node

  unfoldable pub kind : Node → NodeKind
  kind Node.object = NodeKind.object
  kind (Node.list _) = NodeKind.list
  kind (Node.leaf _) = NodeKind.leaf
  kind (Node.packed root blob) = root
