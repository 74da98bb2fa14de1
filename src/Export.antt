-- ===== src/Export.antt =====
-- crates/stratodb/src/export/: documents as text.
pub mod Base64
pub mod Quote
pub mod Scalars
pub mod Json
pub mod Yaml
pub mod Exporter
