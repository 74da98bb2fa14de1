-- ===== src/Tests/Sessions.antt =====
-- Cached reads of the small store.
use stratodb.Base.{
  ℕ, ◌≡◌, refl, inl, inr, [], ◌∷◌, some, none, Option, be_bytes, be_value, text_eq, lex,
}
use stratodb.Base.Dict.{lookup}
use stratodb.Base.Sorted.{binary_search, bisect}
use stratodb.Codec.{new, u8, array, take_bytes}
use stratodb.Error.{ok, name, SPath}
use stratodb.Key.{root, into_bytes, from_bytes}
use stratodb.Scalar.{Scalar}
use stratodb.Scalar.Codec.{encode, decode, decode_body, unsigned}
use stratodb.Engine.Backend.{default_node_step, default_child_link, link_of}
use stratodb.Engine.Archived.{
  ArchNode, new_archived, archived_nodes, fetch, fetch_node, node_at, child_link, pairs_of,
  decode_leaf,
}
use stratodb.Value.{Value, map_get, get, at, step, subtree}
use stratodb.Tree.{read_node, resolve, resolve_from_checked, walk, child_key}
use stratodb.Tree.Holds.{Shape, Holds}
use stratodb.Cache
use stratodb.Txn.Read.{ReadTxn, table, lookup_path, scalar_at_path}
use stratodb.Txn.Read.Monad.{Session}
use stratodb.Txn.Read.Sound.{IsSound}
use stratodb.Txn.Read.Resolves.{Reach, start, by_path, Reach-IsSound, lookup_path-resolve}
use stratodb.Txn.Read.Document.{ArchivedAs, scalar_at_path-subtree}
use stratodb.Tests.Toy.{below, below_if, as_bytes, uuid_of, of_number, toy_crates}
use stratodb.Tests.Store.{toy_reads, here, toy_rkyv, k_list, k_item, k_packed}
use stratodb.Tests.Reads.{toy-Classifies, document, document-absent, at_item, at_packed}
use stratodb.Tests.Lru.{toy_caches}

-- The table of every generation is the small store.
abbrev versions : ℕ → Option toy_reads.Store
unfolding default_node_step default_child_link
versions g = some here

abbrev txn : ReadTxn toy_reads toy_caches
unfolding default_node_step default_child_link
txn = record { generation = 3; opened = table here }

abbrev at_list : SPath
at_list = record { segments = name (97 ∷ []) ∷ [] }

abbrev older : ReadTxn toy_reads toy_caches
unfolding default_node_step default_child_link
older = record { generation = 2; opened = table here }

abbrev session : Cache.PathCache toy_caches → Session toy_reads toy_caches
unfolding default_node_step default_child_link
session c = record { data_table = none; cache = c }

abbrev fresh : Cache.PathCache toy_caches
fresh = Cache.new toy_caches 0 4

abbrev once : Cache.PathCache toy_caches
once = (lookup_path toy_reads toy_caches txn at_list (session fresh)).1.cache

-- A cache that a read of the same generation and one of another have filled.
abbrev filled : Cache.PathCache toy_caches
filled = (lookup_path toy_reads toy_caches older at_item (session once)).1.cache

filled-Reach : Reach toy_reads toy_caches versions filled
unfolding versions txn older
filled-Reach = by_path (by_path (start 0 4) txn refl none tt at_list) older refl none tt at_item

Reach-IsSound_example : IsSound toy_reads toy_caches versions filled
Reach-IsSound_example = Reach-IsSound toy_reads toy_caches versions filled-Reach

lookup_path-resolve_example :
    (lookup_path toy_reads toy_caches txn at_list (session filled)).0 ≡ ok (some k_list)
unfolding default_node_step default_child_link resolve resolve_from_checked walk child_key read_node
    toy_crates root text_eq link_of
lookup_path-resolve_example =
    lookup_path-resolve toy_reads toy_caches versions filled-Reach txn refl none tt at_list

item-Archived :
    Shape toy_reads here
      (ArchivedAs toy_reads toy_caches versions here)
      k_item
      (Value.leaf (Scalar.u8 5))
unfolding toy_crates default_node_step default_child_link
item-Archived = (refl, λ n. refl)

packed-ArchivedAs :
    ArchivedAs toy_reads toy_caches versions here k_packed (Value.leaf (Scalar.u8 7))
unfolding toy_crates default_node_step default_child_link read_node new_archived toy_rkyv
    archived_nodes fetch fetch_node node_at binary_search bisect lex child_link pairs_of lookup
    into_bytes from_bytes root decode decode_body u8 unsigned array take_bytes decode_leaf new
    encode as_bytes uuid_of of_number below below_if be_value be_bytes text_eq
packed-ArchivedAs = record {
  steps = refl;
  mem = (into_bytes root, ArchNode.leaf (encode [] (Scalar.u8 7))) ∷ [];
  decodes = refl;
  holds = (refl, λ n. refl);
}

document-Archived :
    Holds toy_reads here (ArchivedAs toy_reads toy_caches versions here) root document
unfolding toy_crates default_node_step default_child_link map_get root text_eq link_of
document-Archived = inr (
  refl,
  (
    (k_list, refl, inr (k_item ∷ [], refl, (λ n. refl), (inr item-Archived, tt))),
    ((k_packed, refl, inl packed-ArchivedAs), tt),
  ),
  document-absent,
)

scalar_at_path-subtree_example :
    (scalar_at_path toy_reads toy_caches txn at_packed (session filled)).0 ≡ ok (some (Scalar.u8 7))
unfolding subtree step get at map_get text_eq versions txn
scalar_at_path-subtree_example =
    scalar_at_path-subtree toy_reads toy_caches versions filled-Reach txn refl none tt
      toy-Classifies here refl at_packed document document-Archived
