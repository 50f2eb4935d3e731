-- ===== src/Persistence/Rollback/Operations.antt =====
-- src/rollback_persistence.rs: `begin_operation`, `finish_operation` and `get_operation`.
pub mod Keeps
use deploy_mcp.Prelude.{
  ℕ, String, Bool, true, false, not, ◌&&◌, ◌||◌, Option, none, some, List, [], ◌∷◌, ◌++◌, Result,
  ok, err, any, find?, str_eq, if◌then◌else◌, is_some,
}
use deploy_mcp.Error.{Message, format, text, plain}
use deploy_mcp.Domain.Release.{DeploymentId}
use deploy_mcp.Domain.Rollback.{
  Sha256, RollbackReference, RollbackOperation, RollbackOperationId, RollbackOperationState,
}
use deploy_mcp.Domain.Rollback
use deploy_mcp.Ports.{
  RepositoryError, RepositoryResult, corrupt_data, rollback_unavailable, mutation_conflict,
  rollback_operation_conflict,
}
use deploy_mcp.Persistence.Schema.{
  Database, Connection, transaction, query, ReferenceRow, OperationRow, deployment_row, active_in,
  started_in, unresolved_in,
}
use deploy_mcp.Persistence.Insert.{◌>>=◌, ◌>>◌}
use deploy_mcp.Persistence.Rollback.Decode.{
  SnapshotCodec, decode_reference, decode_operation, reference_row, model_row, operation_state_name,
}
use deploy_mcp.Persistence.Rollback.References.{found_source, check_source}

unfoldable pub operation_row : String → Database → Option OperationRow
operation_row id db = find? (λ (row : OperationRow). str_eq row.id id) db.rollback_operations

-- What refuses the insertion of an operation: the two triggers, the unique index and the primary key.
unfoldable pub operation_violation : RollbackOperation → Database → Bool
operation_violation operation db =
    any (active_in operation.application operation.environment) db.deployments
    || any (unresolved_in operation.application operation.environment) db.recovery_incidents
    || any (started_in operation.application operation.environment) db.rollback_operations
    || is_some (operation_row operation.id db)

unfoldable pub new_operation : RollbackOperation → ℕ → OperationRow
new_operation operation now = record {
  id = operation.id;
  source_deployment_id = operation.source_deployment_id;
  application_id = operation.application;
  environment_id = operation.environment;
  state = "started";
  error = none;
  created_at_unix_ms = now;
  finished_at_unix_ms = none;
}

unfoldable pub insert_operation : RollbackOperation → ℕ → Database → RepositoryResult Database
insert_operation operation now db =
    if operation_violation operation db
    then err (mutation_conflict operation.application operation.environment)
    else ok (record db {
      rollback_operations = db.rollback_operations ++ new_operation operation now ∷ [];
    })

no_reference : {A : Type 0} → DeploymentId → RepositoryResult A
no_reference id =
    err (rollback_unavailable (format "no active rollback reference for {}" (text id ∷ [])))

active_row : DeploymentId → Option ReferenceRow → RepositoryResult ReferenceRow
unfolding no_reference
active_row id none = no_reference id
active_row id (some row) = if str_eq row.state "active" then ok row else no_reference id

check_identity : RollbackOperation → RollbackReference → RepositoryResult (Unit {0})
check_identity operation reference =
    if not (str_eq reference.application operation.application)
      || not (str_eq reference.environment operation.environment)
    then err (corrupt_data (plain "rollback operation does not match rollback reference identity"))
    else ok tt

module _ (sha256 : Sha256) (codec : SnapshotCodec) where
  begin_body : RollbackOperation → ℕ → Database → RepositoryResult (RollbackReference × Database)
  unfolding active_row check_identity
  begin_body operation now db = do
    row ←
        active_row operation.source_deployment_id (reference_row operation.source_deployment_id db)
    reference ← decode_reference sha256 codec row (model_row row.deployment_id db)
    check_identity operation reference
    source ←
        found_source operation.source_deployment_id
          (deployment_row operation.source_deployment_id db)
    check_source operation.source_deployment_id operation.application operation.environment source
        db
    db ← insert_operation operation now db
    ok (reference, db)

  unfoldable pub begin_operation :
      RollbackOperation → Connection → RepositoryResult RollbackReference × Connection
  unfolding begin_body
  begin_operation operation = transaction (begin_body operation)

-- A finished operation names its error exactly when it failed.
unfoldable pub finishes : RollbackOperationState → Option Message → Bool
finishes Rollback.succeeded none = true
finishes Rollback.failed (some m) = true
finishes _ _ = false

-- The row is the started operation of the source.
unfoldable pub is_running : RollbackOperationId → DeploymentId → OperationRow → Bool
is_running id source row =
    str_eq row.id id && str_eq row.source_deployment_id source && str_eq row.state "started"

unfoldable pub finish_operations :
    RollbackOperationId
    → DeploymentId
    → RollbackOperationState
    → Option Message
    → ℕ
    → List OperationRow
    → List OperationRow
finish_operations id source state error now [] = []
finish_operations id source state error now (row ∷ rows) =
    (if is_running id source row
      then record row {
        state = operation_state_name state;
        error = error;
        finished_at_unix_ms = some now;
      }
      else row)
    ∷ finish_operations id source state error now rows

is_active_reference : DeploymentId → ReferenceRow → Bool
is_active_reference id row = str_eq row.deployment_id id && str_eq row.state "active"

consume_references : DeploymentId → ℕ → List ReferenceRow → List ReferenceRow
unfolding is_active_reference
consume_references id now [] = []
consume_references id now (row ∷ rows) =
    (if is_active_reference id row
      then record row { state = "consumed"; updated_at_unix_ms = now }
      else row)
    ∷ consume_references id now rows

-- A successful operation consumes the active reference.
consume : DeploymentId → RollbackOperationState → ℕ → Database → RepositoryResult Database
unfolding is_active_reference consume_references
consume source Rollback.started now db = ok db
consume source Rollback.failed now db = ok db
consume source Rollback.succeeded now db =
    if any (is_active_reference source) db.references
    then ok (record db { references = consume_references source now db.references })
    else err (
        rollback_unavailable
          (format "active rollback reference disappeared for {}" (text source ∷ [])))

-- The update meets the row with the identifier, which is the primary key.
unfoldable pub meets : RollbackOperationId → DeploymentId → Option OperationRow → Bool
meets id source none = false
meets id source (some row) = is_running id source row

finish_body :
    RollbackOperationId
    → DeploymentId
    → RollbackOperationState
    → Option Message
    → ℕ
    → Database
    → RepositoryResult ((Unit {0}) × Database)
unfolding consume meets
finish_body id source state error now db =
    if not (meets id source (operation_row id db))
    then err (rollback_operation_conflict id)
    else (do
      db ← consume source state now (record db {
        rollback_operations = finish_operations id source state error now db.rollback_operations;
      })
      ok (tt, db))

-- `finish_operation`: a state and an error that do not fit are refused before any transaction.
unfoldable pub finish_operation :
    RollbackOperationId
    → DeploymentId
    → RollbackOperationState
    → Option Message
    → Connection
    → RepositoryResult (Unit {0}) × Connection
unfolding finish_body
finish_operation id source state error c =
    if not (finishes state error)
    then (err (rollback_operation_conflict id), c)
    else transaction (finish_body id source state error) c

decode_found : Option OperationRow → RepositoryResult (Option RollbackOperation)
decode_found none = ok none
decode_found (some row) = do operation ← decode_operation row; ok (some operation)

unfoldable pub get_operation :
    RollbackOperationId → Connection → RepositoryResult (Option RollbackOperation)
unfolding decode_found
get_operation id = query (λ db. decode_found (operation_row id db))
