-- ===== src/Ports/Recovery.antt =====
-- src/ports.rs: the port of the recovery repository, over the repository's own state.
use deploy_mcp.Prelude.{ℕ, Option, List}
use deploy_mcp.Error.{Message}
use deploy_mcp.Domain.Deployment.{Deployment}
use deploy_mcp.Domain.Rollback.{RollbackOperation}
use deploy_mcp.Domain.Recovery.{
  RecoveryDisposition, RecoveryIncident, RecoveryAcknowledgement, RecoveryAcknowledgementRecord,
}
use deploy_mcp.Ports.{RepositoryResult}

pub record RecoveryRepository (S : Type 0) : Type 0 where
  pub interrupted_deployments : S → RepositoryResult (List Deployment)
  pub started_rollback_operations : S → RepositoryResult (List RollbackOperation)
  pub recover_deployment :
      Deployment
      → RecoveryDisposition
      → Message
      → S
      → RepositoryResult (Option RecoveryIncident) × S
  pub recover_rollback_operation :
      RollbackOperation → Message → S → RepositoryResult (Option RecoveryIncident) × S
  pub unresolved_incidents : S → RepositoryResult (List RecoveryIncident)
  pub get_incident : ℕ → S → RepositoryResult (Option RecoveryIncident)
  pub acknowledge_incident :
      RecoveryAcknowledgement → S → RepositoryResult RecoveryAcknowledgementRecord × S
  pub acknowledgement : ℕ → S → RepositoryResult (Option RecoveryAcknowledgementRecord)
