-- ===== src/Tests.antt =====
-- Concrete clusters, journals and keys, on which the theorems are applied.
mod Cluster
mod Journals
mod Nodes
mod Quorums
mod Keys
mod Descriptors
mod Commands
mod Transactions
mod Leases
mod Protocol
