-- ===== src/Persistence/Rollback/Decode.antt =====
-- src/rollback_persistence.rs: the texts of states, and the decoding of references and operations. The JSON
-- codec of snapshots is a parameter.
use deploy_mcp.Prelude.{
  String, Option, none, some, [], ◌∷◌, Result, ok, err, str_eq, find?, if◌then◌else◌,
}
use deploy_mcp.Error.{format, text, plain}
use deploy_mcp.Domain.Release.{DeploymentMechanismKind, parse_kind, id_new}
use deploy_mcp.Domain.Rollback.{
  RollbackError, RollbackReferenceState, active, superseded, consumed, Sha256,
  JarSystemdRollbackSnapshot, RollbackMechanismSnapshot, RollbackReference, RollbackOperation,
  RollbackOperationState, operation_id_new, fingerprint_new, rehydrate_with_snapshot, rehydrate_jar,
}
use deploy_mcp.Domain.Rollback
use deploy_mcp.Ports.{RepositoryResult, corrupt_data}
use deploy_mcp.Persistence.Schema.{Database, ReferenceRow, ReferenceModelRow, OperationRow}
use deploy_mcp.Persistence.Insert.{◌>>=◌}
use deploy_mcp.Persistence.Decode.{corrupt_domain}

pub record SnapshotCodec : Type 0 where
  pub to_json : RollbackMechanismSnapshot → String
  pub from_json : String → Option RollbackMechanismSnapshot

unfoldable pub reference_state_name : RollbackReferenceState → String
reference_state_name active = "active"
reference_state_name superseded = "superseded"
reference_state_name consumed = "consumed"

unfoldable pub parse_reference_state : String → RepositoryResult RollbackReferenceState
parse_reference_state value =
    if str_eq value "active"
    then ok active
    else if str_eq value "superseded"
    then ok superseded
    else if str_eq value "consumed"
    then ok consumed
    else err (corrupt_data (format "unknown rollback reference state: {other}" (text value ∷ [])))

unfoldable pub operation_state_name : RollbackOperationState → String
operation_state_name Rollback.started = "started"
operation_state_name Rollback.succeeded = "succeeded"
operation_state_name Rollback.failed = "failed"

unfoldable pub parse_operation_state : String → RepositoryResult RollbackOperationState
parse_operation_state value =
    if str_eq value "started"
    then ok Rollback.started
    else if str_eq value "succeeded"
    then ok Rollback.succeeded
    else if str_eq value "failed"
    then ok Rollback.failed
    else err (corrupt_data (format "unknown rollback operation state: {other}" (text value ∷ [])))

unfoldable pub corrupt_rollback : {A : Type 0} → Result RollbackError A → RepositoryResult A
corrupt_rollback (ok a) = ok a
corrupt_rollback (err e) = err (corrupt_data (plain "{error}"))

kind_of : String → Option DeploymentMechanismKind → RepositoryResult DeploymentMechanismKind
kind_of value none =
    err
      (corrupt_data (format "unknown rollback mechanism kind: {mechanism_kind}" (text value ∷ [])))
kind_of value (some kind) = ok kind

snapshot_of : Option RollbackMechanismSnapshot → RepositoryResult RollbackMechanismSnapshot
snapshot_of none =
    err (corrupt_data (plain "invalid rollback mechanism snapshot metadata: {error}"))
snapshot_of (some snapshot) = ok snapshot

unfoldable pub snapshot_columns : ReferenceRow → JarSystemdRollbackSnapshot
snapshot_columns row = record {
  backup_path = row.backup_path;
  install_path = row.install_path;
  rollback_task = row.rollback_task;
  restart_task = row.restart_task;
  health_check_task = row.health_check_task;
}

module _ (sha256 : Sha256) (codec : SnapshotCodec) where
  -- The reference of a row and of its metadata, whose columns are all present or all absent.
  with_model :
      ReferenceRow
      → String
      → String
      → String
      → RollbackReferenceState
      → Option ReferenceModelRow
      → RepositoryResult RollbackReference
  unfolding kind_of snapshot_of
  with_model row id application environment state none =
      ok (rehydrate_jar sha256 id application environment row.target (snapshot_columns row) state)
  with_model row id application environment state (some model) = do
    kind ← kind_of model.mechanism_kind (parse_kind model.mechanism_kind)
    fingerprint ← corrupt_rollback (fingerprint_new model.contract_fingerprint)
    snapshot ← snapshot_of (codec.from_json model.mechanism_snapshot_json)
    corrupt_rollback (
        rehydrate_with_snapshot id application environment kind row.target fingerprint snapshot
          state)

  unfoldable pub decode_reference :
      ReferenceRow → Option ReferenceModelRow → RepositoryResult RollbackReference
  unfolding with_model
  decode_reference row model = do
    id ← corrupt_domain (id_new "DeploymentId" row.deployment_id)
    application ← corrupt_domain (id_new "ApplicationId" row.application_id)
    environment ← corrupt_domain (id_new "EnvironmentId" row.environment_id)
    state ← parse_reference_state row.state
    with_model row id application environment state model

unfoldable pub decode_operation : OperationRow → RepositoryResult RollbackOperation
decode_operation row = do
  id ← corrupt_rollback (operation_id_new row.id)
  source ← corrupt_domain (id_new "DeploymentId" row.source_deployment_id)
  application ← corrupt_domain (id_new "ApplicationId" row.application_id)
  environment ← corrupt_domain (id_new "EnvironmentId" row.environment_id)
  state ← parse_operation_state row.state
  ok (record {
    id = id;
    source_deployment_id = source;
    application = application;
    environment = environment;
    state = state;
  })

unfoldable pub reference_row : String → Database → Option ReferenceRow
reference_row id db = find? (λ (row : ReferenceRow). str_eq row.deployment_id id) db.references

unfoldable pub model_row : String → Database → Option ReferenceModelRow
model_row id db =
    find? (λ (row : ReferenceModelRow). str_eq row.deployment_id id) db.reference_models
