-- ===== src/Storage.antt =====
-- service/storage: the keys of the index database, its operations, and their combinators.
pub mod Encoding
pub mod Library
pub mod Entries
pub mod Saving
pub mod Retrieving
pub mod Operations
