-- ===== src/Storage.antt =====
-- src/storage: how a key of a client becomes a key of the database, and back.
pub mod KeyType
pub mod Locators
pub mod ReverseLocator
pub mod RoundTrip
pub mod Recovered
pub mod BinaryInt
pub mod KeyDescriptor
pub mod DescriptorAccess
pub mod Expiration
