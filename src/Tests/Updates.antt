-- ===== src/Tests/Updates.antt =====
-- A store of the entries of one unique index.
use stratodb.Base.{
  ◌≡◌, refl, ap₂, lex, be_bytes, ◌⊎◌, inl, inr, List, [], ◌∷◌, true, Bool-cases, ◌==◌, Option, none,
  some, text_eq, text_eq_sound, if◌then◌else◌, arith,
}
use stratodb.Base.Dict.{Dict, lookup, insert, lookup-insert}
use stratodb.Error.{SdbResult, ok, err, corrupt}
use stratodb.Key.{skey_eq, into_bytes}
use stratodb.Engine.TableKey.{TableKey, data_key, child, index}
use stratodb.Engine.TableValue.{TableValue, skey}
use stratodb.Engine.Backend.{WriteNodes}
use stratodb.Index.Maintenance.Unique.{PutsOne, LeadsTo, insert_entries-LeadsTo}
use stratodb.Index.Maintenance.Update.{insert_entries}
use stratodb.Index.Maintenance.{guard_unique}
use stratodb.Tree.Write.Monad.{World, pure, reading, writing}
use stratodb.Tree.Write.Monad
use stratodb.Tests.Toy.{toy_crates, as_bytes}
use stratodb.Tests.Store.{toy_rkyv, k_list, k_item}

abbrev fetch_unique : Dict TableValue → TableKey → SdbResult (Option TableValue)
fetch_unique s (index id cols none) = ok (if id == 1 then lookup s cols else none)
fetch_unique s _ = ok none

abbrev put_unique : Dict TableValue → TableKey → TableValue → SdbResult (Unit {0}) × Dict TableValue
put_unique s (index id cols none) v = if id == 1 then (ok tt, insert s cols v) else (err corrupt, s)
put_unique s _ v = (err corrupt, s)

abbrev unique_store : WriteNodes
unique_store = record {
  reads = record {
    Store = Dict TableValue;
    fetch = fetch_unique;
    scan_from = λ s k. ok [];
    node_step = λ s k. ok none;
    child_link = λ s k n. ok none;
  };
  put = put_unique;
  delete = λ s k. (ok tt, s);
}

put_one :
    (s : Dict TableValue) (k : TableKey) (v : TableValue)
    → (put_unique s k v).0 ≡ ok tt
    → (j : TableKey)
    → ((j ≡ k) × (fetch_unique (put_unique s k v).1 j ≡ ok (some v)))
      ⊎ (fetch_unique (put_unique s k v).1 j ≡ fetch_unique s j)
put_one s (index id cols none) v e j = elim (Bool-cases (id == 1)) [
  | inr other ↦ let fails : err corrupt ≡ ok tt = rw other at e in cc
  | inl one ↦ rw one (by_key j (ground arith))
]
  where
    by_key :
        (j : TableKey)
        → id ≡ 1
        → ((j ≡ index id cols none) × (fetch_unique (insert s cols v) j ≡ ok (some v)))
          ⊎ (fetch_unique (insert s cols v) j ≡ fetch_unique s j)
    by_key (index id' cols' none) is_one = elim (Bool-cases (id' == 1)) [
      | inr other ↦ inr (rw other refl)
      | inl one ↦ elim (Bool-cases (text_eq cols' cols)) [
        | inl same ↦ inl (
          ap₂ (λ n c. index n c none) (grind (arith, one, is_one)) (text_eq_sound cols' cols same),
          rw (one, lookup-insert s cols v cols', same) refl,
        )
        | inr differ ↦ inr (rw (one, lookup-insert s cols v cols', differ) refl)
      ]
    ]
    by_key (index id' cols' (some _)) is_one = inr refl
    by_key (data_key _) is_one = inr refl
    by_key (child _ _) is_one = inr refl
put_one s (index id cols (some _)) v e j = let fails : err corrupt ≡ ok tt = e in cc
put_one s (data_key _) v e j = let fails : err corrupt ≡ ok tt = e in cc
put_one s (child _ _) v e j = let fails : err corrupt ≡ ok tt = e in cc

unique_store-PutsOne : PutsOne unique_store
unique_store-PutsOne = record { put_one = put_one }

-- The index holds `k_list` under 5, and takes `k_list` again and `k_item` under 6.
abbrev before : World unique_store
before = record { store = (5 ∷ [], skey k_list) ∷ []; seed = 0 }

abbrev after : World unique_store
after = record { store = (5 ∷ [], skey k_list) ∷ ((6 ∷ [], skey k_item) ∷ []); seed = 0 }

abbrev new_entries : List (TableKey × TableValue)
new_entries = (index 1 (5 ∷ []) none, skey k_list) ∷ ((index 1 (6 ∷ []) none, skey k_item) ∷ [])

new_entries_run : insert_entries unique_store true (105 ∷ []) new_entries before ≡ (ok tt, after)
unfolding toy_crates insert_entries insert lookup lex guard_unique skey_eq into_bytes text_eq
    as_bytes be_bytes pure reading writing Monad.◌>>◌
new_entries_run = refl

insert_entries-LeadsTo_example : LeadsTo unique_store after (index 1 (5 ∷ []) none) k_list
unfolding lookup text_eq
insert_entries-LeadsTo_example =
    insert_entries-LeadsTo unique_store unique_store-PutsOne (105 ∷ []) new_entries before after
      ((k_list, refl), ((k_item, refl), tt)) new_entries_run (index 1 (5 ∷ []) none) k_list refl
