-- ===== src/Ports/Rollback/Contract.antt =====
-- What the rollback service relies on of its repository. The SQLite repository fulfils it in
-- Persistence/Rollback/Contract.antt.
use deploy_mcp.Prelude.{◌≡◌, Option, some, ok}
use deploy_mcp.Error.{Message}
use deploy_mcp.Domain.Release.{DeploymentId}
use deploy_mcp.Domain.Rollback.{
  RollbackReference, RollbackOperation, RollbackOperationId, RollbackOperationState,
}
use deploy_mcp.Domain.Rollback
use deploy_mcp.Ports.Rollback.{RollbackRepository}

pub record RollbackContract {S : Type 0} (port : RollbackRepository S) : Type 0 where
  -- the durable state of an operation, `none` where there is no such operation
  pub status : S → RollbackOperationId → Option RollbackOperationState
  pub begin-ok :
      (operation : RollbackOperation) (s : S) (reference : RollbackReference)
      → (port.begin_operation operation s).0 ≡ ok reference
      → status (port.begin_operation operation s).1 operation.id ≡ some Rollback.started
  pub finish-ok :
      (id : RollbackOperationId) (source : DeploymentId) (state : RollbackOperationState)
      (error : Option Message) (s : S)
      → (port.finish_operation id source state error s).0 ≡ ok tt
      → (status s id ≡ some Rollback.started)
        × (status (port.finish_operation id source state error s).1 id ≡ some state)
  pub get-ok :
      (id : RollbackOperationId) (operation : RollbackOperation) (s : S)
      → port.get_operation id s ≡ ok (some operation)
      → status s id ≡ some operation.state
