-- ===== src/Domain.antt =====
-- src/domain: the model of a deployment, free of persistence and of remote execution.
pub mod State
pub mod Release
pub mod Deployment
pub mod Plan
pub mod Rollback
pub mod Recovery
