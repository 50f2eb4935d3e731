-- ===== src/Persistence/Rollback.antt =====
-- src/rollback_persistence.rs: `SqliteRollbackRepository`.
pub mod Decode
pub mod References
pub mod Operations
pub mod Retention
pub mod Repository
pub mod Contract
