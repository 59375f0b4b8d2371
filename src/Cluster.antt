-- ===== src/Cluster.antt =====
-- internal/cluster: the placement of partitions on nodes, and the health of the nodes.
pub mod Partition
pub mod Breaker
pub mod Health
