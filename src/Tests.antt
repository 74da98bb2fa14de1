-- ===== src/Tests.antt =====
-- Concrete inputs for the theorems that have hypotheses.
pub mod Toy
mod Scalars
mod Paths
mod Entries
mod Indexes
mod Values
mod Store
mod Reads
mod Updates
mod Patterns
mod Queries
mod Archives
mod Hidden
mod Packs
mod Lru
mod Sessions
mod Shared
mod Registries
mod Exports
mod Loads
mod Tables
mod Patches
