-- ===== src/Persistence/Recovery/Queries.antt =====
-- src/recovery_persistence.rs: the methods that read, and the decoding of their rows.
pub mod Laws
use deploy_mcp.Prelude.{
  ℕ, Bool, not, ◌&&◌, ◌||◌, Option, none, some, List, [], ◌∷◌, Result, ok, err, filter, find?,
  str_eq, ltb, leb, ◌==◌, is_some,
}
use Prim.Native.String.{compare}
use deploy_mcp.Error.{plain}
use deploy_mcp.Domain.Release.{id_new, artifact_new}
use deploy_mcp.Domain.Deployment.{Deployment, rehydrate}
use deploy_mcp.Domain.Rollback.{RollbackOperation, operation_id_new}
use deploy_mcp.Domain.Rollback
use deploy_mcp.Domain.Recovery.{
  RecoveryIncident, RecoveryAcknowledgementRecord, RecoveryError, acknowledgement_new,
}
use deploy_mcp.Ports.{RepositoryResult, corrupt_data}
use deploy_mcp.Persistence.Names.{parse_state}
use deploy_mcp.Persistence.Order.{order_by, at_most}
use deploy_mcp.Persistence.Schema.{
  DeploymentRow, OperationRow, IncidentRow, AcknowledgementRow, Connection, query, is_active_row,
  order_by_creation,
}
use deploy_mcp.Persistence.Insert.{◌>>=◌}
use deploy_mcp.Persistence.Decode.{corrupt_domain}
use deploy_mcp.Persistence.Rollback.Decode.{corrupt_rollback}
use deploy_mcp.Persistence.Recovery.{incident_row, sqlite_id}
use deploy_mcp.Persistence.Recovery.Names.{parse_subject_kind, decode_incident}

-- The rows decoded in their order, up to the first that cannot be.
abbrev pub decode_rows :
    {A B : Type 0} → (A → RepositoryResult B) → List A → RepositoryResult (List B)
decode_rows decode [] = ok []
decode_rows decode (row ∷ rows) = do
  value ← decode row
  values ← decode_rows decode rows
  ok (value ∷ values)

abbrev pub decode_optional :
    {A B : Type 0} → (A → RepositoryResult B) → Option A → RepositoryResult (Option B)
decode_optional decode none = ok none
decode_optional decode (some row) = do value ← decode row; ok (some value)

-- `decode_deployment` of this file: the metadata table is not read.
unfoldable pub decode_interrupted : DeploymentRow → RepositoryResult Deployment
decode_interrupted row = do
  id ← corrupt_domain (id_new "DeploymentId" row.id)
  application ← corrupt_domain (id_new "ApplicationId" row.application_id)
  environment ← corrupt_domain (id_new "EnvironmentId" row.environment_id)
  artifact ←
      corrupt_domain (artifact_new row.artifact_version row.artifact_size_bytes row.artifact_sha256)
  state ← parse_state row.state
  ok (rehydrate id application environment artifact state)

unfoldable pub interrupted_deployments : Connection → RepositoryResult (List Deployment)
interrupted_deployments =
    query (λ db.
      decode_rows decode_interrupted (filter is_active_row (order_by_creation db.deployments)))

decode_rollback : OperationRow → RepositoryResult RollbackOperation
decode_rollback row = do
  id ← corrupt_rollback (operation_id_new row.id)
  source ← corrupt_domain (id_new "DeploymentId" row.source_deployment_id)
  application ← corrupt_domain (id_new "ApplicationId" row.application_id)
  environment ← corrupt_domain (id_new "EnvironmentId" row.environment_id)
  ok (record {
    id = id;
    source_deployment_id = source;
    application = application;
    environment = environment;
    state = Rollback.started;
  })

precedes : OperationRow → OperationRow → Bool
precedes a b =
    ltb a.created_at_unix_ms b.created_at_unix_ms
    || (a.created_at_unix_ms == b.created_at_unix_ms && at_most (compare a.id b.id))

unfoldable pub started_rollback_operations : Connection → RepositoryResult (List RollbackOperation)
unfolding decode_rollback precedes
started_rollback_operations = query (λ db. decode_rows decode_rollback (
    filter (λ (row : OperationRow). str_eq row.state "started")
      (order_by precedes db.rollback_operations)))

unfoldable pub unresolved_incidents : Connection → RepositoryResult (List RecoveryIncident)
unresolved_incidents = query (λ db. decode_rows decode_incident (
    filter (λ (row : IncidentRow). not (is_some row.resolved_at_unix_ms))
      (order_by (λ (a b : IncidentRow). leb a.id b.id) db.recovery_incidents)))

unfoldable pub get_incident : ℕ → Connection → RepositoryResult (Option RecoveryIncident)
get_incident incident_id c = do
  id ← sqlite_id incident_id
  query (λ db. decode_optional decode_incident (incident_row id db)) c

corrupt_recovery : {A : Type 0} → Result RecoveryError A → RepositoryResult A
corrupt_recovery (ok a) = ok a
corrupt_recovery (err e) = err (corrupt_data (plain "{error}"))

unfoldable pub decode_acknowledgement :
    AcknowledgementRow → RepositoryResult RecoveryAcknowledgementRecord
unfolding corrupt_recovery
decode_acknowledgement row = do
  kind ← parse_subject_kind row.subject_kind
  a ← corrupt_recovery (
      acknowledgement_new (record {
        incident_id = row.incident_id;
        application = row.application_id;
        environment = row.environment_id;
        subject_kind = kind;
        subject_id = row.subject_id;
        operator = row.operator;
        evidence = row.evidence;
      }))
  ok (record { acknowledgement = a; acknowledged_at_unix_ms = row.acknowledged_at_unix_ms })

unfoldable pub acknowledgement :
    ℕ → Connection → RepositoryResult (Option RecoveryAcknowledgementRecord)
acknowledgement incident_id c = do
  id ← sqlite_id incident_id
  query
      (λ db.
        decode_optional decode_acknowledgement
          (find? (λ (row : AcknowledgementRow). row.incident_id == id) db.acknowledgements))
      c
