-- ===== src/Tests/Patterns.antt =====
-- Patterns on a store where each node is a list of one element.
use mathlib.Core.List.{Memᴰ}
use mathlib.Core.List.Memᴰ.{head, cases_cons, not-nil}
use stratodb.Base.{zero, suc, ◌≡◌, ◌↔◌, refl, sym, ap, inl, inr, List, [], ◌∷◌, Option, some, none}
use stratodb.Error.{SdbResult, ok, Segment, name, index}
use stratodb.Key.{Skey, root}
use stratodb.Node.{Node}
use stratodb.Engine.TableKey.{TableKey, data_key}
use stratodb.Engine.TableValue.{TableValue, node}
use stratodb.Engine.Backend.{ReadNodes, default_node_step, default_child_link}
use stratodb.Tree.{child_key, children, read_node}
use stratodb.Index.Pattern.{Pattern, star, affected_entities, walk, walk_each}
use stratodb.Index.Pattern.Covers.{ListsChildren, Found, affected_entities-Found}
use stratodb.Tests.Toy.{toy_crates}
use stratodb.Tests.Store.{k_item}

abbrev fetch_list : Unit {0} → TableKey → SdbResult (Option TableValue)
fetch_list s (data_key k) = ok (some (node (Node.list (k_item ∷ []))))
fetch_list s _ = ok none

abbrev lists : ReadNodes
unfolding default_node_step default_child_link
lists = record {
  Store = Unit {0};
  fetch = fetch_list;
  scan_from = λ s k. ok [];
  node_step = default_node_step fetch_list;
  child_link = default_child_link fetch_list;
}

abbrev all_lists : lists.Store
unfolding default_node_step default_child_link
all_lists = tt

led :
    (k c : Skey) (cs : List Skey)
    → children lists all_lists k ≡ ok cs
    → Memᴰ c cs
    → (seg : Segment) × (child_key lists all_lists k seg ≡ ok (some c))
unfolding default_node_step default_child_link children read_node child_key
led k c cs e m =
    let items : k_item ∷ [] ≡ cs = cc in
    elim (cases_cons (rw (← items) at m)) [
      | inl same ↦ (index 0, ap (λ x. ok (some x)) (sym same))
      | inr never ↦ absurd (not-nil never)
    ]

listed :
    (k c : Skey) (cs : List Skey) (seg : Segment)
    → children lists all_lists k ≡ ok cs
    → child_key lists all_lists k seg ≡ ok (some c)
    → Memᴰ c cs
unfolding default_node_step default_child_link children read_node child_key
listed k c cs (name n) e h = let never : ok none ≡ ok (some c) = h in cc
listed k c cs (index zero) e h =
    let items : k_item ∷ [] ≡ cs = cc in
    let same : k_item ≡ c = cc in rw (← items) (head (sym same))
listed k c cs (index (suc i)) e h = let never : ok none ≡ ok (some c) = h in cc

lists-ListsChildren : ListsChildren lists all_lists
lists-ListsChildren = record { led = led; listed = listed }

abbrev every_child : Pattern
every_child = record { segs = star ∷ [] }

every_child_run :
    affected_entities lists all_lists every_child (record { segments = [] }) ≡ ok (k_item ∷ [])
unfolding affected_entities walk children read_node default_node_step default_child_link walk_each
every_child_run = refl

affected_entities-Found_example :
    Memᴰ k_item (k_item ∷ []) ↔ Found lists all_lists every_child.segs [] root k_item
affected_entities-Found_example =
    affected_entities-Found lists all_lists lists-ListsChildren every_child
      (record { segments = [] }) k_item (k_item ∷ []) every_child_run
