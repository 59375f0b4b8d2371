-- ===== src/Insert.antt =====
-- internal/pskinsert: the insert tier, which sends each sample to the nodes of its partition.
pub mod Router
pub mod Batch
