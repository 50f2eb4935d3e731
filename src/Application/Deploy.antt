-- ===== src/Application/Deploy.antt =====
-- src/application/deploy.rs: the deployment service. `Failure` has its failures and outcomes, `Attempt`
-- the calls of the repository and of the mechanism, `Run` the phases of a deployment that is reserved,
-- `Request` the checks before it and `deploy` itself.
pub mod Failure
pub mod Attempt
pub mod Run
pub mod Request
