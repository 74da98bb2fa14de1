-- ===== src/Engine/Redb.antt =====
-- A redb table as a store of nodes, in crates/stratodb/src/engine/backend.rs. redb is a parameter:
-- it keeps byte strings under byte strings in the order of the bytes, which `RedbKey::compare`
-- asks for.
use stratodb.Base.{ℕ, List, [], map, Option, none, some}
use stratodb.Error.{SdbResult, ok, err, panic, ◌>>=◌}
use stratodb.Crates.{Crates}
use stratodb.Key.{Skey}
use stratodb.Engine.TableKey.{TableKey, data_key, encode, decode}
use stratodb.Engine.TableValue.{TableValue, encode as encode_value, decode as decode_value}
use stratodb.Engine.Backend.{NodeStep, WriteNodes, default_child_link, step_of}

pub record Redb : Type 1 where
  pub Table : Type 0
  pub get : Table → List ℕ → SdbResult (Option (List ℕ))
  pub insert : Table → List ℕ → List ℕ → SdbResult (Unit {0}) × Table
  pub remove : Table → List ℕ → SdbResult (Unit {0}) × Table
  pub range : Table → List ℕ → SdbResult (List (SdbResult (List ℕ × List ℕ)))

-- `.expect(..)`: the engine decodes what it reads, and bytes that do not decode panic.
abbrev pub expect : {A : Type 0} → SdbResult A → SdbResult A
expect (ok a) = ok a
expect (err e) = panic
expect panic = panic

module _ ⦃crates : Crates⦄ (redb : Redb) where
  unfoldable pub fetch : redb.Table → TableKey → SdbResult (Option TableValue)
  unfolding encode decode_value
  fetch t k = redb.get t (encode k) >>= λ found. elim found [
    | none ↦ ok none
    | some bytes ↦ expect (decode_value bytes) >>= λ v. ok (some v)
  ]

  unfoldable pub read_item : SdbResult (List ℕ × List ℕ) → SdbResult (TableKey × TableValue)
  unfolding decode decode_value
  read_item item = item >>= λ (k, v).
      expect (decode k) >>= λ key. expect (decode_value v) >>= λ value. ok (key, value)

  unfoldable pub scan_from :
      redb.Table → TableKey → SdbResult (List (SdbResult (TableKey × TableValue)))
  unfolding encode read_item
  scan_from t lower = redb.range t (encode lower) >>= λ items. ok (map read_item items)

  -- The value is looked at by reference, so that a blob is not copied.
  unfoldable pub node_step : redb.Table → Skey → SdbResult (Option NodeStep)
  unfolding fetch step_of
  node_step t k = fetch t (data_key k) >>= step_of

  unfoldable pub put : redb.Table → TableKey → TableValue → SdbResult (Unit {0}) × redb.Table
  unfolding encode encode_value
  put t k v = redb.insert t (encode k) (encode_value [] v)

  unfoldable pub delete : redb.Table → TableKey → SdbResult (Unit {0}) × redb.Table
  unfolding encode
  delete t k = redb.remove t (encode k)

  unfoldable pub table_nodes : WriteNodes
  unfolding fetch scan_from node_step default_child_link put delete
  table_nodes = record {
    reads = record {
      Store = redb.Table;
      fetch = fetch;
      scan_from = scan_from;
      node_step = node_step;
      child_link = default_child_link fetch;
    };
    put = put;
    delete = delete;
  }
