-- ===== src/Txn/Query.antt =====
-- The index queries of crates/stratodb/src/txn/read.rs, up to the keys of the entities that a query
-- selects; loading an entity is up to its type. The registry's entry is an argument.

use mathlib.Core.List.{reverse}
use stratodb.Base.{
  ℕ, List, [], ◌∷◌, ◌&&◌, ◌==◌, Bool, true, false, ltb, none, some, Text, length, be_bytes,
  if◌then◌else◌,
}
use stratodb.Error.{SPath, SdbResult, ok, err, corrupt, index_arity, ◌>>=◌}
use stratodb.Crates.{Crates}
use stratodb.Key.{Skey, skey_eq}
use stratodb.Key
use stratodb.Scalar.{Scalar}
use stratodb.Engine.TableKey.{TableKey, index}
use stratodb.Engine.TableValue.{TableValue, skey}
use stratodb.Engine.Backend.{ReadNodes}
use stratodb.Index.Definition.{encode_columns}
use stratodb.Index.Pattern
use stratodb.Index.Maintenance.{IndexEntry}
use stratodb.Spath.{len, is_root}

-- `cols.starts_with(prefix)`.
unfoldable pub starts_with : List ℕ → List ℕ → Bool
starts_with [] cols = true
starts_with (p ∷ prefix) [] = false
starts_with (p ∷ prefix) (c ∷ cols) = p == c && starts_with prefix cols

module _ ⦃crates : Crates⦄ where
  unfoldable pub covers : ℕ → List ℕ → TableKey → Bool
  unfolding starts_with
  covers id prefix (index entry_id cols entity) = entry_id == id && starts_with prefix cols
  covers id prefix _ = false

  -- The entity of an entry: in its key, or in its value.
  unfoldable pub entity_of : TableKey → TableValue → SdbResult Skey
  entity_of (index id cols (some entity)) v = ok entity
  entity_of (index id cols none) (skey entity) = ok entity
  entity_of _ _ = err corrupt

  -- One item of the scan; the items behind it are not looked at where the loop breaks off.
  unfoldable pub scan_item :
      ℕ → List ℕ → TableKey × TableValue → SdbResult (List Skey) → SdbResult (List Skey)
  unfolding covers entity_of
  scan_item id prefix (k, v) rest =
      if covers id prefix k
      then (entity_of k v >>= λ entity. rest >>= λ entities. ok (entity ∷ entities))
      else ok []

  unfoldable pub scan_items :
      ℕ → List ℕ → List (SdbResult (TableKey × TableValue)) → SdbResult (List Skey)
  unfolding scan_item
  scan_items id prefix [] = ok []
  scan_items id prefix (item ∷ items) =
      let rest = scan_items id prefix items in item >>= λ e. scan_item id prefix e rest

  -- The first key of a prefix.
  unfoldable pub lower_key : ℕ → List ℕ → Bool → TableKey
  unfolding Key.from_bytes
  lower_key id prefix unique =
      index id prefix (if unique then none else some (Key.from_bytes (be_bytes 16 0)))

  -- `contains` of the set.
  unfoldable pub among : List Skey → Skey → Bool
  unfolding skey_eq
  among [] e = false
  among (x ∷ xs) e = if skey_eq x e then true else among xs e

  unfoldable pub retain : List Skey → List Skey → List Skey
  unfolding among
  retain under [] = []
  retain under (e ∷ entities) =
      let rest = retain under entities in if among under e then e ∷ rest else rest

  module _ (R : ReadNodes) where
    unfoldable pub scan_prefix : R.Store → ℕ → List ℕ → Bool → SdbResult (List Skey)
    unfolding scan_items lower_key
    scan_prefix s id prefix unique =
        R.scan_from s (lower_key id prefix unique) >>= scan_items id prefix

    -- Only the entities at or under the root of the query stay.
    unfoldable pub restrict : R.Store → Text → SPath → List Skey → SdbResult (List Skey)
    unfolding is_root len Pattern.parse Pattern.depth Pattern.affected_entities retain
    restrict s pattern root entities =
        if is_root root
        then ok entities
        else (Pattern.parse pattern >>= λ p.
            if ltb (Pattern.depth p) (len root)
            then ok []
            else (Pattern.affected_entities R s p root >>= λ under. ok (retain under entities)))

    -- `execute_query`, on a table that is there.
    unfoldable pub select :
        R.Store → IndexEntry → List Scalar → Bool → SPath → SdbResult (List Skey)
    unfolding encode_columns scan_prefix restrict
    select s entry prefix reversed root =
        if ltb (length entry.def.columns) (length prefix)
        then err (index_arity entry.def.name (length entry.def.columns) (length prefix))
        else (scan_prefix s entry.id (encode_columns entry.def prefix) entry.def.unique >>= λ found.
            restrict s entry.def.pattern root found >>= λ entities.
            ok (if reversed then reverse entities else entities))
