-- ===== src/StateMachine.antt =====
-- src/StateMachine.cc: the commands on keys, as writes of a staging area over the database.
pub mod Database
pub mod StagingArea
pub mod WriteOperation
pub mod Status
pub mod Hashes
pub mod Removal
pub mod Sets
pub mod Deques
pub mod Commit
pub mod ExpirationEventCache
pub mod Leases
pub mod Strings
pub mod LocalityHashes
pub mod FieldMap
pub mod Fields
pub mod Refinement
