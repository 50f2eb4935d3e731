-- ===== src/Application.antt =====
-- src/application: the services.
pub mod Exec
pub mod Lock
pub mod Mechanism
pub mod Artifact
pub mod Deploy
pub mod Recovery
pub mod Retention
pub mod Rollback
