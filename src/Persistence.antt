-- ===== src/Persistence.antt =====
-- src/persistence.rs and migrations: the SQLite deployment repository.
pub mod Names
pub mod Order
pub mod Schema
pub mod Stored
pub mod Insert
pub mod Decode
pub mod Reserve
pub mod Progress
pub mod Attempts
pub mod Deployments
pub mod Exclusive
pub mod Recovery
pub mod Rollback
pub mod Guarded
