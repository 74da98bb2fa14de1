-- ===== src/Engine/TableValue/Tag.antt =====
-- The tags of crates/stratodb/src/engine/table_value.rs and of src/node/definition.rs.
use stratodb.Base.{ℕ}

abbrev pub node : ℕ
node = 0

abbrev pub skey : ℕ
skey = 1

abbrev pub nothing : ℕ
nothing = 2

abbrev pub object : ℕ
object = 0

abbrev pub list : ℕ
list = 1

abbrev pub leaf : ℕ
leaf = 2

abbrev pub packed : ℕ
packed = 3
