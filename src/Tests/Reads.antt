-- ===== src/Tests/Reads.antt =====
-- Reads of the small store.
use stratodb.Base.{
  true, ◌≡◌, refl, inl, inr, [], ◌∷◌, some, none, Text, be_bytes, be_value, text_eq, Bool-cases,
}
use stratodb.Codec.{new, u8, array, take_bytes}
use stratodb.Base.Dict.{lookup}
use stratodb.Error.{ok, name, index, SPath}
use stratodb.Key.{root, into_bytes, from_bytes}
use stratodb.Scalar.Codec.{encode, decode, decode_body, unsigned}
use stratodb.Engine.Mem.{MemNode, engine_node, children_of, mem_reads}
use stratodb.Engine.Archived.{decode_leaf, from_blob, new_archived, entries, insert_views}
use stratodb.Tree.{read_node}
use stratodb.Scalar.{Scalar}
use stratodb.Node.{NodeKind}
use stratodb.Engine.Backend.{link_of, default_node_step, default_child_link}
use stratodb.Value.{Value, nil, cons, empty, entry, map_get, vec_get, get, at, step, subtree}
use stratodb.Tree.Holds.{Classifies, Shape, Holds}
use stratodb.Tree.Refines.Read.{PackedAs, get_scalar-subtree, kind-subtree}
use stratodb.Tree.Packed.{decode_packed, get_scalar, kind}
use stratodb.Tree.Packed.{entity_leaf}
use stratodb.Tree.Refines.Entity.{entity_leaf-subtree}
use stratodb.Index.Definition.{IndexDef, asc, desc}
use stratodb.Index.Keys.{index_key}
use stratodb.Index.Maintenance.{entity_key}
use stratodb.Index.Maintenance.Columns.{entity_key-index_key}
use stratodb.Tests.Toy.{below, below_if, as_bytes, uuid_of, of_number, toy_crates}
use stratodb.Tests.Store.{toy_reads, here, toy_rkyv, k_list, k_item, k_packed}

pub toy-Classifies : Classifies toy_reads
unfolding default_node_step default_child_link
toy-Classifies = record { same = λ s k. refl }

abbrev pub document : Value
document = Value.node (
    entry (97 ∷ []) (Value.list (cons (Value.leaf (Scalar.u8 5)) nil))
      (entry (112 ∷ []) (Value.leaf (Scalar.u8 7)) empty))

item-Shape : Shape toy_reads here (PackedAs toy_reads here) k_item (Value.leaf (Scalar.u8 5))
unfolding toy_crates default_node_step default_child_link
item-Shape = (refl, λ n. refl)

packed-PackedAs : PackedAs toy_reads here k_packed (Value.leaf (Scalar.u8 7))
unfolding toy_crates default_node_step default_child_link decode_packed from_blob read_node
    new_archived toy_rkyv entries insert_views into_bytes from_bytes root mem_reads decode
    decode_body u8 unsigned array take_bytes decode_leaf new encode as_bytes uuid_of of_number below
    below_if be_value be_bytes text_eq lookup engine_node children_of
packed-PackedAs = record {
  steps = refl;
  mem = (into_bytes root, MemNode.leaf (Scalar.u8 7)) ∷ [];
  decodes = refl;
  holds = (refl, λ n. refl);
}

pub document-absent :
    (n : Text)
    → map_get
        (entry
          (97 ∷ [])
          (Value.list (cons (Value.leaf (Scalar.u8 5)) nil))
          (entry (112 ∷ []) (Value.leaf (Scalar.u8 7)) empty))
        n
      ≡ none
    → toy_reads.child_link here root n ≡ ok none
unfolding toy_crates default_node_step default_child_link map_get root link_of
document-absent n e = elim (Bool-cases (text_eq n (97 ∷ []))) [
  | inl a ↦ let is_there : some _ ≡ none = rw a at e in cc
  | inr not_a ↦ elim (Bool-cases (text_eq n (112 ∷ []))) [
    | inl p ↦ let is_there : some _ ≡ none = rw (not_a, p) at e in cc
    | inr not_p ↦ rw (not_a, not_p) refl
  ]
]

document-Holds : Holds toy_reads here (PackedAs toy_reads here) root document
unfolding toy_crates default_node_step default_child_link map_get root text_eq link_of
document-Holds = inr (
  refl,
  (
    (k_list, refl, inr (k_item ∷ [], refl, (λ n. refl), (inr item-Shape, tt))),
    ((k_packed, refl, inl packed-PackedAs), tt),
  ),
  document-absent,
)

abbrev pub at_item : SPath
at_item = record { segments = name (97 ∷ []) ∷ (index 0 ∷ []) }

abbrev pub at_packed : SPath
at_packed = record { segments = name (112 ∷ []) ∷ [] }

get_scalar-subtree_example : get_scalar toy_reads here at_packed ≡ ok (some (Scalar.u8 7))
unfolding subtree step get at map_get text_eq
get_scalar-subtree_example =
    get_scalar-subtree toy_reads here toy-Classifies at_packed document document-Holds

kind-subtree_example : kind toy_reads here at_item ≡ ok (some NodeKind.leaf)
unfolding subtree step get at map_get vec_get text_eq
kind-subtree_example = kind-subtree toy_reads here toy-Classifies at_item document document-Holds

entity_leaf-subtree_example :
    entity_leaf toy_reads here k_packed (record { segments = [] }) ≡ ok (some (Scalar.u8 7))
unfolding subtree
entity_leaf-subtree_example =
    entity_leaf-subtree toy_reads here k_packed (Value.leaf (Scalar.u8 7))
      (record { segments = [] }) (inl packed-PackedAs)

-- An index on the entity itself and on its field `a`.
abbrev by_self : IndexDef
by_self = record {
  name = 115 ∷ [];
  pattern = 112 ∷ [];
  columns =
      record { path = record { segments = [] }; direction = asc }
      ∷ (record { path = record { segments = name (97 ∷ []) ∷ [] }; direction = desc } ∷ []);
  unique = true;
}

entity_key-index_key_example :
    entity_key toy_reads here 4 by_self k_packed
    ≡ ok (index_key 4 by_self (Scalar.u8 7 ∷ (Scalar.null ∷ [])) k_packed)
unfolding subtree step get
entity_key-index_key_example =
    entity_key-index_key toy_reads here 4 by_self k_packed (Value.leaf (Scalar.u8 7))
      (inl packed-PackedAs)
