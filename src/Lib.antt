-- ===== src/Lib.antt =====
-- StratoDB, a typed and indexed document store: crates/stratodb/src.
--
-- A table of the store is a tree of nodes. A path (path/) addresses a node of the tree, a key
-- (key.rs) names it for ever, and a scalar (data/scalar.rs) is what a leaf holds. Nodes are stored
-- as byte strings that codec/ writes and reads, and the columns of an index are scalars in a
-- second encoding (index/ordered.rs), whose bytewise order is the order of the values.
--
-- Base      numbers, lists, bytes, lexicographic order, texts and their decimal numbers: what the
--           standard library of the source does, and lemmas.
-- Error     error.rs and path/segment.rs. A call returns `ok`, an error or `panic`.
-- Crates    what the code relies on of the crates uuid and chrono, as documented.
-- Key       key.rs: `Skey`, with the generator on explicit state.
-- Codec     codec/: `put_u32`, `put_bytes` and `Reader`, whose operations pass the cursor on.
--           Codec/Reads has the rules for what a decoder reads back, Codec/Safety those for
--           bytes of any kind, Codec/Lengths what is read back of a byte run of any length.
-- Scalar    data/scalar.rs and datetime.rs: `type_str`, `encode` and `decode`.
-- Spath     path/: the operations of `SPath`, the parser (Spath/Parse) and Display; the paths that
--           print and parse back (Spath/Canonical).
-- Node      node/: `NodeKind` with its tags, `Node`.
-- Engine    engine/table_key.rs (Engine/TableKey), where `Ord` compares fields and the store
--           compares bytes, and engine/table_value.rs (Engine/TableValue). Engine/Backend has the
--           methods that a store of nodes gives, which a redb table (Engine/Redb), the nodes of a
--           packed entity in memory (Engine/Mem) and its archive (Engine/Archived) implement.
-- Tree      tree.rs over any of these stores. Tree and Tree/Packed read; Tree/Write, Tree/Edit and
--           Tree/Pack write, and a write passes on the store and the state of the key generator
--           beside its result (Tree/Write/Monad). Tree/Holds says when the nodes of a store make up
--           a document of Value, and Tree/Refines that reading the store reads the document.
-- Index     index/ordered.rs (Index/Ordered), and the order of the values that it is meant to
--           keep, written on the values (Index/Ordered/Reference); index/definitions/
--           (Index/Definition); the key of an entry, `index_key` of index/maintenance.rs
--           (Index/Keys); index/pattern.rs (Index/Pattern), and the entities that a pattern covers
--           (Index/Pattern/Covers); the rest of index/maintenance.rs (Index/Maintenance); index/registry/ (Index/Registry), with
--           what is read back of a stored registry (Index/Registry/Stored), the search that skips in
--           it (Index/Registry/Names), and its ids and names (Index/Registry/Ids) over any sequence of
--           calls (Index/Registry/Runs).
-- Txn       the selection of an index query of txn/read.rs (Txn/Query): the scan of the entries
--           under a prefix, which Txn/Scan is about, and the restriction to the root of the query;
--           the writes of txn/write.rs by path, in the bracket of index maintenance (Txn/Write);
--           the reads by path (Txn/Read), through the caches that all transactions of a table share:
--           Txn/Read/Sound says when a cache agrees with the committed versions, Txn/Read/Hits that
--           its reads and writes keep that, Txn/Read/Resolves and Txn/Read/Document what is read;
--           the loads of whole documents (Txn/Value).
-- Cache     cache.rs: the paths and the blobs that are cached by generation.
-- Db        db/inner.rs: the caches and index sets that all handles share. Db/Versions has the threads
--           that begin reads and commit writes under `version_lock`, and those that commit index
--           definitions without it, Db/Schema and Db/Sets the
--           cached index sets against the commits of index definitions, and Db/Table those calls of
--           table.rs.
-- Value     value.rs: the dynamic document, read and set by paths (Value/Set). A map is the list of
--           its entries in the order of their keys.
-- Export    export/: Base64 (Export/Base64), quoted texts (Export/Quote), scalars, JSON and YAML, and
--           the exporters. What is printed of a float, a UUID and a time is an argument.
-- Tests     a concrete instance of the crates, and the theorems at concrete inputs.
--
-- Conventions. A byte is a number below 256 and a text its UTF-8 bytes. A w-bit word is a number,
-- with its wrap-around written out. `usize` has 64 bits. A float is its IEEE 754 bits. The messages of
-- errors are left out.
--
-- The loop over the indices of a path token runs on fuel, one round for each byte that is left. A
-- round takes a byte at least, so the fuel never ends first: running out is `panic`, which the
-- parser is shown not to return.
--
-- `cascade_delete` takes a node off its stack in each round, and its rounds are a parameter, since
-- in a store whose links run in a circle it does not end. The recursion of `ensure_container_rel`
-- has as many rounds as the path has segments. `value_at` has a round for each level that it goes
-- down, and two more than the document is deep are enough.
--
-- redb, rkyv and lru are parameters. A redb table maps byte strings to byte strings, and rkyv turns an
-- `ArchTree` into bytes and gives access to it; the addresses in an archive (`leaf_byte_span`) are
-- parameters. `sort_by_key` and `binary_search_by` of the standard library stand in Base/Sorted: the
-- search halves what is left, on as many rounds as there are entries. An `LruCache` finds what was
-- put there last, or nothing.
--
-- Not modelled: the scalars of the features bigint-as-scalar, bigfloat-as-scalar and
-- rational-as-scalar, which stand on the num crates; the rest of the transactions (txn/), which run the
-- store of a value's own type; the typed data of data/, the readers and writers of access/ and the
-- derive macros; the opening of files and of redb's transactions (db/database.rs, table.rs).
pub mod Base
pub mod Cache
pub mod Codec
pub mod Crates
pub mod Db
pub mod Engine
pub mod Error
pub mod Export
pub mod Index
pub mod Key
pub mod Node
pub mod Scalar
pub mod Spath
pub mod Tests
pub mod Tree
pub mod Txn
pub mod Value
