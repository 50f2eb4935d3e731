-- ===== src/Application/Rollback.antt =====
-- src/application/rollback.rs: the service for explicit rollbacks. It runs over the database that both
-- repositories share, the remote side and the active leases.
pub mod Failure
pub mod Service
