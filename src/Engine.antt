-- ===== src/Engine.antt =====
-- crates/stratodb/src/engine/: the entries of a table.
pub mod TableKey
pub mod TableValue
pub mod Backend
pub mod Mem
pub mod Archived
pub mod Redb
