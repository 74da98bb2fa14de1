-- ===== src/Tree/Refines/Stores.antt =====
-- The stores of crates/stratodb/src/engine/backend.rs and archived.rs classify nodes as the default
-- method does.
use stratodb.Base.{refl}
use stratodb.Crates.{Crates}
use stratodb.Engine.Mem.{mem_reads}
use stratodb.Engine.Archived.{archived_nodes}
use stratodb.Engine.Redb.{Redb, table_nodes}
use stratodb.Tree.Holds.{Classifies}

module _ ⦃crates : Crates⦄ where
  pub mem-Classifies : Classifies mem_reads
  unfolding mem_reads
  mem-Classifies = record { same = λ s k. refl }

  pub archived-Classifies : Classifies archived_nodes
  unfolding archived_nodes
  archived-Classifies = record { same = λ s k. refl }

  pub table-Classifies : (redb : Redb) → Classifies (table_nodes redb).reads
  unfolding table_nodes
  table-Classifies redb = record { same = λ s k. refl }
