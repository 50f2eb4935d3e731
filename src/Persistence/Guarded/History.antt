-- ===== src/Persistence/Guarded/History.antt =====
-- Any sequence of the writing calls of all four repositories, which share one database, and what holds
-- after it.
use deploy_mcp.Prelude.{ℕ, String, ◌≡◌, Bool, true, all, arith, Option, List, [], ◌∷◌, ◌++◌, ℤ}
use deploy_mcp.Error.{Message}
use deploy_mcp.Domain.State.{DeploymentState, can_transition_to}
use deploy_mcp.Domain.Plan.{DeploymentStep}
use deploy_mcp.Domain.Release.{DeploymentId}
use deploy_mcp.Domain.Deployment.{Deployment}
use deploy_mcp.Domain.Rollback.{
  Sha256, RollbackReference, RollbackOperation, RollbackOperationId, RollbackOperationState,
}
use deploy_mcp.Domain.Recovery.{RecoveryDisposition, RecoveryAcknowledgement}
use deploy_mcp.Ports.{StepAttemptId, StepAttemptStatus}
use deploy_mcp.Persistence.Schema.{Database, Connection, DeploymentRow}
use deploy_mcp.Persistence.Exclusive.{Exclusive-append}
use deploy_mcp.Persistence.Insert.{Codec, create, new_row}
use deploy_mcp.Persistence.Insert.Keeps.{Appends, create-keeps}
use deploy_mcp.Persistence.Reserve.{reserve}
use deploy_mcp.Persistence.Reserve.Keeps.{reserve-keeps}
use deploy_mcp.Persistence.Progress.{persist_transition}
use deploy_mcp.Persistence.Progress.Keeps.{persist_transition-Guarded}
use deploy_mcp.Persistence.Attempts.{start_step, finish_step}
use deploy_mcp.Persistence.Attempts.Laws.{start_step-Guarded, finish_step-Guarded}
use deploy_mcp.Persistence.Recovery.{
  recover_deployment, recover_rollback_operation, acknowledge_incident,
}
use deploy_mcp.Persistence.Recovery.Laws.{
  recover_deployment-Guarded, recover_rollback_operation-Guarded,
}
use deploy_mcp.Persistence.Recovery.Acknowledged.{acknowledge_incident-Guarded}
use deploy_mcp.Persistence.Rollback.Decode.{SnapshotCodec}
use deploy_mcp.Persistence.Rollback.References.{record_reference}
use deploy_mcp.Persistence.Rollback.References.Keeps.{record_reference-Guarded}
use deploy_mcp.Persistence.Rollback.Operations.{begin_operation, finish_operation}
use deploy_mcp.Persistence.Rollback.Operations.Keeps.{
  begin_operation-Guarded, finish_operation-Guarded,
}
use deploy_mcp.Persistence.Rollback.Retention.{prune_inactive_reference_snapshots}
use deploy_mcp.Persistence.Rollback.Retention.Laws.{prune-Guarded}
use deploy_mcp.Persistence.Guarded.{Guarded, Apart-append, Guarded-Same}

-- The methods that take `&mut self`, of every repository, with their arguments.
pub data Call : Type 0 where
  creating : Deployment → Call
  reserving : Deployment → Option String → Call
  moving : DeploymentId → DeploymentState → DeploymentState → Call
  starting : DeploymentId → DeploymentStep → Call
  finishing : StepAttemptId → StepAttemptStatus → Option Message → Call
  recording : RollbackReference → Call
  beginning : RollbackOperation → Call
  ending : RollbackOperationId → DeploymentId → RollbackOperationState → Option Message → Call
  pruning : ℤ → ℕ → Call
  recovering : Deployment → RecoveryDisposition → Message → Call
  abandoning : RollbackOperation → Message → Call
  acknowledging : RecoveryAcknowledgement → Call

-- A transition is asked for only along the matrix, as the deployment service does.
unfoldable pub is_allowed : Call → Bool
is_allowed (moving id from to) = can_transition_to from to
is_allowed _ = true

Appends-Guarded :
    (row : DeploymentRow) (db db' : Database) → Guarded db → Appends row db db' → Guarded db'
Appends-Guarded row db db' (exclusive, one, apart) (rows, operations, idle, settled, free) =
    Guarded-Same (record db { deployments = db.deployments ++ row ∷ [] }) db'
      (
        Exclusive-append db.deployments row exclusive free,
        one,
        Apart-append db.rollback_operations db.deployments row apart idle,
      )
      (rows, operations)

pub create-Guarded :
    (codec : Codec) (d : Deployment) (c : Connection)
    → Guarded c.database
    → Guarded (create codec d c).1.database
create-Guarded codec d c g =
    create-keeps codec d c Guarded
      (λ artifact size db. Appends-Guarded (new_row d artifact size c.now) c.database db g) g

pub reserve-Guarded :
    (codec : Codec) (d : Deployment) (key : Option String) (c : Connection)
    → Guarded c.database
    → Guarded (reserve codec d key c).1.database
reserve-Guarded codec d key c g =
    reserve-keeps codec d key c Guarded
      (λ artifact size db. Appends-Guarded (new_row d artifact size c.now) c.database db g) g

module _ (codec : Codec) (sha256 : Sha256) (snapshots : SnapshotCodec) where
  -- The connection after a call, whatever it returns.
  abbrev pub after_call : Call → Connection → Connection
  after_call (creating d) c = (create codec d c).1
  after_call (reserving d key) c = (reserve codec d key c).1
  after_call (moving id from to) c = (persist_transition id from to c).1
  after_call (starting id step) c = (start_step id step c).1
  after_call (finishing attempt status error) c = (finish_step attempt status error c).1
  after_call (recording reference) c = (record_reference sha256 snapshots reference c).1
  after_call (beginning operation) c = (begin_operation sha256 snapshots operation c).1
  after_call (ending id source state error) c = (finish_operation id source state error c).1
  after_call (pruning cutoff limit) c = (prune_inactive_reference_snapshots cutoff limit c).1
  after_call (recovering d disposition reason) c = (recover_deployment d disposition reason c).1
  after_call (abandoning operation reason) c = (recover_rollback_operation operation reason c).1
  after_call (acknowledging a) c = (acknowledge_incident a c).1

  abbrev pub after_calls : List Call → Connection → Connection
  after_calls [] c = c
  after_calls (call ∷ calls) c = after_calls calls (after_call call c)

  after_call-Guarded :
      (call : Call) (c : Connection)
      → is_allowed call ≡ true
      → Guarded c.database
      → Guarded (after_call call c).database
  unfolding is_allowed
  after_call-Guarded (creating d) c a g = create-Guarded codec d c g
  after_call-Guarded (reserving d key) c a g = reserve-Guarded codec d key c g
  after_call-Guarded (moving id from to) c a g = persist_transition-Guarded id from to c a g
  after_call-Guarded (starting id step) c a g = start_step-Guarded id step c g
  after_call-Guarded (finishing attempt status error) c a g =
      finish_step-Guarded attempt status error c g
  after_call-Guarded (recording reference) c a g =
      record_reference-Guarded sha256 snapshots reference c g
  after_call-Guarded (beginning operation) c a g =
      begin_operation-Guarded sha256 snapshots operation c g
  after_call-Guarded (ending id source state error) c a g =
      finish_operation-Guarded id source state error c g
  after_call-Guarded (pruning cutoff limit) c a g = prune-Guarded cutoff limit c g
  after_call-Guarded (recovering d disposition reason) c a g =
      recover_deployment-Guarded d disposition reason c g
  after_call-Guarded (abandoning operation reason) c a g =
      recover_rollback_operation-Guarded operation reason c g
  after_call-Guarded (acknowledging a) c allowed g = acknowledge_incident-Guarded a c g

  -- From a guarded database, in which an environment has at most one active deployment, at most one started
  -- rollback operation and never both, every sequence of calls of the repositories that asks for
  -- transitions only along the matrix leads to a guarded database, calls that fail included.
  pub after_calls-Guarded :
      (calls : List Call) (c : Connection)
      → all is_allowed calls ≡ true
      → Guarded c.database
      → Guarded (after_calls calls c).database
  after_calls-Guarded [] c a g = g
  after_calls-Guarded (call ∷ calls) c a g =
      after_calls-Guarded calls (after_call call c) (ground arith)
        (after_call-Guarded call c (ground arith) g)
