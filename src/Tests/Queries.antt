-- ===== src/Tests/Queries.antt =====
-- A scan over the entries of a unique index.
use stratodb.Base.{◌≡◌, refl, List, [], ◌∷◌, map, true, none, lex, arith, be_bytes}
use stratodb.Error.{ok}
use stratodb.Engine.TableKey.{TableKey, index, tag, encode}
use stratodb.Codec.{put_u32}
use stratodb.Engine.TableValue.{TableValue, skey}
use stratodb.Engine.Backend.{WriteNodes}
use stratodb.Txn.Query.{scan_prefix, lower_key, covers, starts_with, entity_of}
use stratodb.Txn.Scan.{Ascends, AreEntriesOf, from_bound, scan_prefix-all_hits, all_hits}
use stratodb.Tests.Toy.{toy_crates}
use stratodb.Tests.Store.{k_list, k_item, k_packed}

abbrev items : List (TableKey × TableValue)
items =
    (index 1 (4 ∷ []) none, skey k_packed)
    ∷ ((index 1 (5 ∷ []) none, skey k_list)
        ∷ ((index 1 (5 ∷ (7 ∷ [])) none, skey k_item)
            ∷ ((index 1 (6 ∷ []) none, skey k_packed) ∷ [])))

abbrev pub three_entries : WriteNodes
three_entries = record {
  reads = record {
    Store = Unit {0};
    fetch = λ s k. ok none;
    scan_from = λ s k. ok (map ok (from_bound k items));
    node_step = λ s k. ok none;
    child_link = λ s k n. ok none;
  };
  put = λ s k v. (ok tt, s);
  delete = λ s k. (ok tt, s);
}

items-Ascends : Ascends items
unfolding encode put_u32 be_bytes lex
items-Ascends = (
  ((λ e. cc), ((λ e. cc), ((λ e. cc), tt))),
  (((λ e. cc), ((λ e. cc), tt)), (((λ e. cc), tt), (tt, tt))),
)

items-AreEntriesOf : AreEntriesOf 1 (tag (lower_key 1 (5 ∷ []) true)) (5 ∷ []) items
unfolding starts_with tag lower_key
items-AreEntriesOf = (
  (omega arith, λ e. (refl, λ h. cc)),
  (
    (omega arith, λ e. (refl, λ h. h)),
    ((omega arith, λ e. (refl, λ h. cc)), ((omega arith, λ e. (refl, λ h. cc)), tt)),
  ),
)

scan_prefix-all_hits_example :
    scan_prefix three_entries.reads tt 1 (5 ∷ []) true ≡ ok (k_list ∷ (k_item ∷ []))
unfolding covers starts_with all_hits entity_of
scan_prefix-all_hits_example =
    scan_prefix-all_hits three_entries.reads tt 1 (5 ∷ []) true items (λ bound. refl) (omega arith)
      items-Ascends items-AreEntriesOf
