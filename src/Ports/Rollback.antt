-- ===== src/Ports/Rollback.antt =====
-- src/ports.rs: the ports of the rollback repository and of the retention of its snapshots, over the
-- repository's own state.
pub mod Contract
use deploy_mcp.Prelude.{ℕ, Option, ℤ}
use deploy_mcp.Error.{Message}
use deploy_mcp.Domain.Release.{DeploymentId}
use deploy_mcp.Domain.Rollback.{
  RollbackReference, RollbackOperation, RollbackOperationId, RollbackOperationState,
}
use deploy_mcp.Ports.{RepositoryResult}

pub record RollbackRepository (S : Type 0) : Type 0 where
  pub record_reference : RollbackReference → S → RepositoryResult (Unit {0}) × S
  pub get_reference : DeploymentId → S → RepositoryResult (Option RollbackReference)
  pub begin_operation : RollbackOperation → S → RepositoryResult RollbackReference × S
  pub finish_operation :
      RollbackOperationId
      → DeploymentId
      → RollbackOperationState
      → Option Message
      → S
      → RepositoryResult (Unit {0}) × S
  pub get_operation : RollbackOperationId → S → RepositoryResult (Option RollbackOperation)

-- The cutoff is an i64, the limit a usize.
pub record RollbackRetentionRepository (S : Type 0) : Type 0 where
  pub prune_inactive_reference_snapshots : ℤ → ℕ → S → RepositoryResult ℕ × S
