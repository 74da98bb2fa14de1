-- ===== src/Index.antt =====
-- crates/stratodb/src/index/: the definitions of indexes and the bytes of their keys.
pub mod Ordered
pub mod Definition
pub mod Keys
pub mod Pattern
pub mod Maintenance
pub mod Registry
