-- ===== src/Persistence/Recovery.antt =====
-- src/recovery_persistence.rs: `SqliteRecoveryRepository`, the methods that write.
pub mod Names
pub mod Queries
pub mod Laws
pub mod Acknowledged
pub mod Repository
use deploy_mcp.Prelude.{
  ℕ, suc, ◌+◌, ◌^◌, String, Bool, true, false, not, ◌&&◌, ◌||◌, Option, none, some, List, [], ◌∷◌,
  ◌++◌, Result, ok, err, any, find?, str_eq, ltb, ◌==◌, if◌then◌else◌, is_some,
}
use deploy_mcp.Text.{all_chars}
use deploy_mcp.Error.{Message, format, number, plain}
use deploy_mcp.Domain.State.{DeploymentState, failed, is_terminal}
use deploy_mcp.Domain.Deployment.{Deployment}
use deploy_mcp.Domain.Rollback.{RollbackOperation}
use deploy_mcp.Domain.Recovery.{
  RecoverySubjectKind, deployment, rollback_operation, RecoveryDisposition, auto_resolved,
  manual_reconciliation_required, RecoveryIncident, RecoveryAcknowledgement,
  RecoveryAcknowledgementRecord, is_manual, subject_kind_eq,
}
use deploy_mcp.Ports.{
  RepositoryError, RepositoryResult, storage, recovery_incident_not_found,
  recovery_incident_conflict,
}
use deploy_mcp.Persistence.Names.{state_name}
use deploy_mcp.Persistence.Schema.{
  Database, Connection, transaction, DeploymentRow, AttemptRow, OperationRow, IncidentRow,
  AcknowledgementRow, deployment_row, same_environment, unresolved_in,
}
use deploy_mcp.Persistence.Insert.{◌>>=◌, ◌>>◌}
use deploy_mcp.Persistence.Progress.{update_state}
use deploy_mcp.Persistence.Recovery.Names.{
  subject_kind_name, parse_subject_kind, disposition_name, parse_disposition, decode_incident,
}

-- When an incident of the disposition counts as resolved from the start.
unfoldable pub resolved_at : RecoveryDisposition → ℕ → Option ℕ
resolved_at auto_resolved now = some now
resolved_at manual_reconciliation_required now = none

-- The new row of `recovery_incidents`.
unfoldable pub new_incident :
    ℕ
    → RecoverySubjectKind
    → String
    → String
    → String
    → String
    → RecoveryDisposition
    → Message
    → ℕ
    → IncidentRow
unfolding resolved_at
new_incident id kind subject application environment previous disposition reason now = record {
  id = id;
  subject_kind = subject_kind_name kind;
  subject_id = subject;
  application_id = application;
  environment_id = environment;
  previous_state = previous;
  disposition = disposition_name disposition;
  reason = reason;
  created_at_unix_ms = now;
  resolved_at_unix_ms = resolved_at disposition now;
}

-- The unique indexes of the table: one incident of a subject, one unresolved incident of an environment.
unfoldable pub incident_violation : IncidentRow → Database → Bool
incident_violation row db =
    any
      (λ (i : IncidentRow).
        str_eq i.subject_kind row.subject_kind && str_eq i.subject_id row.subject_id)
      db.recovery_incidents
    || (not (is_some row.resolved_at_unix_ms)
        && any (unresolved_in row.application_id row.environment_id) db.recovery_incidents)

incident_of : IncidentRow → RecoverySubjectKind → RecoveryDisposition → RecoveryIncident
incident_of row kind disposition = record {
  id = row.id;
  subject_kind = kind;
  subject_id = row.subject_id;
  application = row.application_id;
  environment = row.environment_id;
  previous_state = row.previous_state;
  disposition = disposition;
  reason = row.reason;
  created_at_unix_ms = row.created_at_unix_ms;
  resolved_at_unix_ms = row.resolved_at_unix_ms;
}

unfoldable pub insert_incident :
    RecoverySubjectKind
    → String
    → String
    → String
    → String
    → RecoveryDisposition
    → Message
    → ℕ
    → Database
    → RepositoryResult (Option RecoveryIncident × Database)
unfolding incident_of new_incident
insert_incident kind subject application environment previous disposition reason now db =
    let row =
      new_incident (suc db.incident_sequence) kind subject application environment previous
        disposition reason now in
    if incident_violation row db
    then err (storage (plain "UNIQUE constraint failed"))
    else ok (
      some (incident_of row kind disposition),
      record db {
        recovery_incidents = db.recovery_incidents ++ row ∷ [];
        incident_sequence = suc db.incident_sequence;
      },
    )

-- The started attempts of a deployment are failed with the reason.
fail_attempts : String → Message → ℕ → List AttemptRow → List AttemptRow
fail_attempts id reason now [] = []
fail_attempts id reason now (row ∷ rows) =
    (if str_eq row.deployment_id id && str_eq row.status "started"
      then record row { status = "failed"; error = some reason; finished_at_unix_ms = some now }
      else row)
    ∷ fail_attempts id reason now rows

-- The database with the deployment failed, its attempts closed and the transition recorded.
interrupted : Deployment → Message → ℕ → Database → Database
unfolding fail_attempts
interrupted d reason now db = record db {
  deployments = update_state d.id (state_name d.state) "failed" now db.deployments;
  attempts = fail_attempts d.id reason now db.attempts;
  transitions =
      db.transitions
      ++ record {
        deployment_id = d.id;
        from_state = state_name d.state;
        to_state = "failed";
        occurred_at_unix_ms = now;
      }
        ∷ [];
}

recover_found :
    Deployment
    → RecoveryDisposition
    → Message
    → ℕ
    → Database
    → Option DeploymentRow
    → RepositoryResult (Option RecoveryIncident × Database)
unfolding interrupted insert_incident
recover_found d disposition reason now db none = ok (none, db)
recover_found d disposition reason now db (some row) =
    if not (str_eq row.state (state_name d.state))
    then ok (none, db)
    else insert_incident deployment d.id d.application d.environment (state_name d.state)
        disposition reason now (interrupted d reason now db)

recover_body :
    Deployment
    → RecoveryDisposition
    → Message
    → ℕ
    → Database
    → RepositoryResult (Option RecoveryIncident × Database)
unfolding recover_found
recover_body d disposition reason now db =
    recover_found d disposition reason now db (deployment_row d.id db)

-- `recover_deployment`: a terminal deployment is left alone before any transaction.
unfoldable pub recover_deployment :
    Deployment
    → RecoveryDisposition
    → Message
    → Connection
    → RepositoryResult (Option RecoveryIncident) × Connection
unfolding recover_body
recover_deployment d disposition reason c =
    if is_terminal d.state then (ok none, c) else transaction (recover_body d disposition reason) c

unfoldable pub is_started_operation : String → OperationRow → Bool
is_started_operation id row = str_eq row.id id && str_eq row.state "started"

fail_operations : String → Message → ℕ → List OperationRow → List OperationRow
unfolding is_started_operation
fail_operations id reason now [] = []
fail_operations id reason now (row ∷ rows) =
    (if is_started_operation id row
      then record row { state = "failed"; error = some reason; finished_at_unix_ms = some now }
      else row)
    ∷ fail_operations id reason now rows

recover_operation_body :
    RollbackOperation
    → Message
    → ℕ
    → Database
    → RepositoryResult (Option RecoveryIncident × Database)
unfolding is_started_operation fail_operations insert_incident
recover_operation_body operation reason now db =
    if not (any (is_started_operation operation.id) db.rollback_operations)
    then ok (none, db)
    else insert_incident rollback_operation operation.id operation.application operation.environment
        "started" manual_reconciliation_required reason now
        (record db {
          rollback_operations = fail_operations operation.id reason now db.rollback_operations;
        })

unfoldable pub recover_rollback_operation :
    RollbackOperation
    → Message
    → Connection
    → RepositoryResult (Option RecoveryIncident) × Connection
unfolding recover_operation_body
recover_rollback_operation operation reason = transaction (recover_operation_body operation reason)

unfoldable pub incident_row : ℕ → Database → Option IncidentRow
incident_row id db = find? (λ (row : IncidentRow). row.id == id) db.recovery_incidents

conflict : String → ℕ → RepositoryError
conflict message id = recovery_incident_conflict (format message (number id ∷ []))

unfoldable pub validate_acknowledgement :
    RecoveryIncident → RecoveryAcknowledgement → RepositoryResult (Unit {0})
unfolding conflict
validate_acknowledgement incident a =
    if not (is_manual incident.disposition)
    then err (conflict "recovery incident {} is not a manual reconciliation incident" incident.id)
    else if is_some incident.resolved_at_unix_ms
    then err (conflict "recovery incident {} is already resolved" incident.id)
    else if not (str_eq incident.application a.application)
        || not (str_eq incident.environment a.environment)
        || not (subject_kind_eq incident.subject_kind a.subject_kind)
        || not (str_eq incident.subject_id a.subject_id)
    then err (conflict "recovery incident {} identity does not match acknowledgement" incident.id)
    else ok tt

unfoldable pub sqlite_id : ℕ → RepositoryResult ℕ
sqlite_id value =
    if ltb value (2 ^ 63)
    then ok value
    else err (storage (plain "recovery incident id exceeds SQLite INTEGER"))

-- The primary key and the CHECKs of `recovery_acknowledgements`; `trim` of SQLite removes spaces.
acknowledgement_violation : RecoveryAcknowledgement → Database → Bool
acknowledgement_violation a db =
    all_chars (λ c. c == 32) a.operator
    || all_chars (λ c. c == 32) a.evidence
    || any (λ (row : AcknowledgementRow). row.incident_id == a.incident_id) db.acknowledgements

unfoldable pub acknowledgement_row : RecoveryAcknowledgement → ℕ → AcknowledgementRow
acknowledgement_row a now = record {
  incident_id = a.incident_id;
  application_id = a.application;
  environment_id = a.environment;
  subject_kind = subject_kind_name a.subject_kind;
  subject_id = a.subject_id;
  operator = a.operator;
  evidence = a.evidence;
  acknowledged_at_unix_ms = now;
}

-- The row is the unresolved manual incident.
unfoldable pub is_waiting : ℕ → IncidentRow → Bool
is_waiting id row =
    row.id == id
    && not (is_some row.resolved_at_unix_ms)
    && str_eq row.disposition "manual_reconciliation_required"

resolve_incidents : ℕ → ℕ → List IncidentRow → List IncidentRow
unfolding is_waiting
resolve_incidents id now [] = []
resolve_incidents id now (row ∷ rows) =
    (if is_waiting id row then record row { resolved_at_unix_ms = some now } else row)
    ∷ resolve_incidents id now rows

acknowledged :
    RecoveryAcknowledgement
    → ℕ
    → Database
    → RepositoryResult (RecoveryAcknowledgementRecord × Database)
unfolding acknowledgement_violation acknowledgement_row resolve_incidents is_waiting conflict
acknowledged a now db =
    if acknowledgement_violation a db
    then err (storage (plain "constraint failed"))
    else if not (any (is_waiting a.incident_id) db.recovery_incidents)
    then err (conflict "recovery incident {} changed while it was being acknowledged" a.incident_id)
    else ok (
      record { acknowledgement = a; acknowledged_at_unix_ms = now },
      record db {
        acknowledgements = db.acknowledgements ++ acknowledgement_row a now ∷ [];
        recovery_incidents = resolve_incidents a.incident_id now db.recovery_incidents;
      },
    )

acknowledge_found :
    RecoveryAcknowledgement
    → ℕ
    → Database
    → Option IncidentRow
    → RepositoryResult (RecoveryAcknowledgementRecord × Database)
unfolding validate_acknowledgement acknowledged
acknowledge_found a now db none = err (recovery_incident_not_found a.incident_id)
acknowledge_found a now db (some row) = do
  incident ← decode_incident row
  validate_acknowledgement incident a
  acknowledged a now db

acknowledge_body :
    RecoveryAcknowledgement
    → ℕ
    → Database
    → RepositoryResult (RecoveryAcknowledgementRecord × Database)
unfolding sqlite_id acknowledge_found incident_row
acknowledge_body a now db = do
  id ← sqlite_id a.incident_id
  acknowledge_found a now db (incident_row id db)

unfoldable pub acknowledge_incident :
    RecoveryAcknowledgement
    → Connection
    → RepositoryResult RecoveryAcknowledgementRecord × Connection
unfolding acknowledge_body
acknowledge_incident a = transaction (acknowledge_body a)
