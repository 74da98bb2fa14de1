-- ===== src/Export/Exporter.antt =====
-- crates/stratodb/src/export/exporter.rs: the exports of a document and of what a read transaction
-- loads, which is the argument `read_value`.
use stratodb.Base.{ℕ, Option, none, some, Text, if◌then◌else◌}
use stratodb.Error.{SPath, SdbResult, ok, err, path_not_found, ◌>>=◌}
use stratodb.Crates.{Crates}
use stratodb.Scalar.{Scalar}
use stratodb.Spath.{is_root}
use stratodb.Spath.Parse.{PathSource, into_path}
use stratodb.Value.{Value, subtree}
use stratodb.Export.Scalars.{Displays}
use stratodb.Export.Json.{to_json}
use stratodb.Export.Yaml.{to_yaml}

module _ ⦃crates : Crates⦄ where
  unfoldable pub navigate : Value → SPath → SdbResult Value
  unfolding subtree
  navigate value base = elim (subtree value base.segments) [
    | some found ↦ ok found
    | none ↦ err (path_not_found base)
  ]

  unfoldable pub txn_value : SPath → SdbResult (Option Value) → SdbResult Value
  unfolding is_root
  txn_value base read_value = read_value >>= λ found. elim found [
    | some value ↦ ok value
    | none ↦ if is_root base then ok (Value.leaf Scalar.null) else err (path_not_found base)
  ]

  module _ (show : Displays) where
    unfoldable pub value_to_json : Value → PathSource → Option ℕ → SdbResult Text
    unfolding into_path navigate to_json
    value_to_json value path indent =
        into_path path >>= λ base. navigate value base >>= λ found. ok (to_json show found indent)

    unfoldable pub value_to_yaml : Value → PathSource → SdbResult Text
    unfolding into_path navigate to_yaml
    value_to_yaml value path =
        into_path path >>= λ base. navigate value base >>= λ found. ok (to_yaml show found)

    unfoldable pub txn_to_json :
        (SPath → SdbResult (Option Value)) → PathSource → Option ℕ → SdbResult Text
    unfolding into_path txn_value to_json
    txn_to_json read_value path indent = into_path path >>= λ base.
        txn_value base (read_value base) >>= λ value. ok (to_json show value indent)

    unfoldable pub txn_to_yaml : (SPath → SdbResult (Option Value)) → PathSource → SdbResult Text
    unfolding into_path txn_value to_yaml
    txn_to_yaml read_value path = into_path path >>= λ base.
        txn_value base (read_value base) >>= λ value. ok (to_yaml show value)
