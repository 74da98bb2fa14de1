-- ===== src/Txn.antt =====
-- crates/stratodb/src/txn/: the reads and writes of a transaction.
pub mod Query
pub mod Read
pub mod Scan
pub mod Value
pub mod Write
