-- ===== src/Server.antt =====
-- The correction sessions of apps/server: a working copy of a document with its history.
pub mod StoredFindings
pub mod Merged
pub mod Session
pub mod Commit
pub mod Calls
pub mod Consistency
pub mod Served
pub mod History
pub mod Store
pub mod Capacity
