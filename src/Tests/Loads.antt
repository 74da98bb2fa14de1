-- ===== src/Tests/Loads.antt =====
-- Loading the document of the small store.
use stratodb.Base.{◌≡◌, refl, inl, inr, [], ◌∷◌, be_bytes, be_value, text_eq, lex, arith}
use stratodb.Base.Dict.{lookup}
use stratodb.Codec.{new, u8, array, take_bytes}
use stratodb.Error.{ok}
use stratodb.Key.{root, into_bytes, from_bytes, skey_eq}
use stratodb.Scalar.{Scalar}
use stratodb.Scalar.Codec.{encode, decode, decode_body, unsigned}
use stratodb.Node.{NodeKind}
use stratodb.Engine.Backend.{default_node_step, default_child_link}
use stratodb.Engine.Mem.{MemNode, engine_node, mem_reads}
use stratodb.Engine.Archived.{decode_leaf, from_blob, new_archived, entries, insert_views}
use stratodb.Value.{Value}
use stratodb.Tree.{read_node, object_children, collect_links, link_item}
use stratodb.Txn.Value.{value_at}
use stratodb.Txn.Value.Loads.{Lists, PacksAs, value_at-Lists}
use stratodb.Tests.Toy.{below, below_if, as_bytes, uuid_of, of_number, toy_crates}
use stratodb.Tests.Store.{toy_reads, here, toy_rkyv, k_list, k_item, k_packed, blob}
use stratodb.Tests.Reads.{document}

packed-PacksAs : PacksAs toy_reads here k_packed (Value.leaf (Scalar.u8 7))
unfolding toy_crates default_node_step default_child_link from_blob read_node new_archived toy_rkyv
    entries insert_views into_bytes from_bytes root mem_reads decode decode_body u8 unsigned array
    take_bytes decode_leaf new encode as_bytes uuid_of of_number below below_if be_value be_bytes
    text_eq lookup engine_node
packed-PacksAs = record {
  root = NodeKind.leaf;
  blob = blob;
  mem = (into_bytes root, MemNode.leaf (Scalar.u8 7)) ∷ [];
  is_packed = refl;
  decodes = refl;
  lists = refl;
}

document-Lists : Lists toy_reads here (PacksAs toy_reads here) root document
unfolding toy_crates default_node_step default_child_link read_node object_children collect_links
    link_item skey_eq into_bytes root as_bytes be_bytes text_eq lex
document-Lists = (
  (97 ∷ [], k_list) ∷ (112 ∷ [], k_packed) ∷ [],
  refl,
  ([], refl, tt),
  (((refl, tt), (tt, tt))),
  (refl, inr (k_item ∷ [], refl, (inr refl, tt)), (refl, inl packed-PacksAs, tt)),
)

value_at-Lists_example : value_at 4 toy_reads here root ≡ ok document
value_at-Lists_example =
    value_at-Lists toy_reads here 4 root document (inr document-Lists) (omega arith)
