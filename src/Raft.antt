-- ===== src/Raft.antt =====
-- src/raft
pub mod Types
pub mod Parsing
pub mod Members
pub mod Store
pub mod Journal
pub mod State
pub mod Dispatcher
pub mod Quorum
pub mod VoteRegistry
pub mod Registrations
pub mod CommitTracker
pub mod Lease
pub mod Entries
