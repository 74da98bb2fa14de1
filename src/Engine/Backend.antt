-- ===== src/Engine/Backend.antt =====
-- crates/stratodb/src/engine/backend.rs: what the tree needs of a store of nodes. A `&mut` store is
-- passed on beside the result, also beside an error.
use stratodb.Base.{List, Option, none, some, Text}
use stratodb.Error.{SdbResult, ok, err, corrupt, ◌>>=◌}
use stratodb.Crates.{Crates}
use stratodb.Key.{Skey}
use stratodb.Node.{Node}
use stratodb.Engine.TableKey.{TableKey, data_key, child}
use stratodb.Engine.TableValue.{TableValue, node, skey}

module _ ⦃crates : Crates⦄ where
  pub data NodeStep : Type 0 where
    packed : NodeStep
    list : List Skey → NodeStep
    plain : NodeStep

  -- `ReadNodes`. A scan is the list of its items.
  pub record ReadNodes : Type 1 where
    pub Store : Type 0
    pub fetch : Store → TableKey → SdbResult (Option TableValue)
    pub scan_from : Store → TableKey → SdbResult (List (SdbResult (TableKey × TableValue)))
    pub node_step : Store → Skey → SdbResult (Option NodeStep)
    pub child_link : Store → Skey → Text → SdbResult (Option Skey)

  -- `WriteNodes`.
  pub record WriteNodes : Type 1 where
    pub reads : ReadNodes
    pub put : reads.Store → TableKey → TableValue → SdbResult (Unit {0}) × reads.Store
    pub delete : reads.Store → TableKey → SdbResult (Unit {0}) × reads.Store

  -- The default methods of `ReadNodes`.
  unfoldable pub step_of : Option TableValue → SdbResult (Option NodeStep)
  step_of (some (node (Node.packed root blob))) = ok (some packed)
  step_of (some (node (Node.list items))) = ok (some (list items))
  step_of (some (node _)) = ok (some plain)
  step_of (some _) = err corrupt
  step_of none = ok none

  unfoldable pub link_of : Option TableValue → SdbResult (Option Skey)
  link_of (some (skey k)) = ok (some k)
  link_of (some _) = err corrupt
  link_of none = ok none

  module _ {Store : Type 0} (fetch : Store → TableKey → SdbResult (Option TableValue)) where
    unfoldable pub default_node_step : Store → Skey → SdbResult (Option NodeStep)
    unfolding step_of
    default_node_step s k = fetch s (data_key k) >>= step_of

    unfoldable pub default_child_link : Store → Skey → Text → SdbResult (Option Skey)
    unfolding link_of
    default_child_link s parent name = fetch s (child parent name) >>= link_of
