-- ===== src/Engine/TableKey/Tag.antt =====
-- The tags of crates/stratodb/src/engine/table_key.rs.
use stratodb.Base.{ℕ}

abbrev pub data_key : ℕ
data_key = 0

abbrev pub child : ℕ
child = 1

abbrev pub index_dup : ℕ
index_dup = 2

abbrev pub index_unique : ℕ
index_unique = 3
