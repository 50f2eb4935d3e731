-- ===== src/Persistence/Rollback/References.antt =====
-- src/rollback_persistence.rs: `record_reference` and `get_reference`. The rows of `deployments` stand in
-- the order of their rowids, since none is ever deleted.
pub mod Keeps
use deploy_mcp.Prelude.{
  ℕ, String, Bool, true, false, not, ◌&&◌, ◌||◌, Option, none, some, List, [], ◌∷◌, ◌++◌, Result,
  ok, err, any, str_eq, if◌then◌else◌, is_some, ◌==◌,
}
use Prim.Native.String.{len}
use deploy_mcp.Error.{format, text, plain}
use deploy_mcp.Domain.Release.{DeploymentId, kind_name}
use deploy_mcp.Domain.Rollback.{
  Sha256, JarSystemdRollbackSnapshot, RollbackMechanismSnapshot, jar_systemd_snapshot,
  RollbackReference,
}
use deploy_mcp.Ports.{
  RepositoryError, RepositoryResult, storage, not_found, corrupt_data, rollback_unavailable,
}
use deploy_mcp.Persistence.Schema.{
  Database, Connection, transaction, query, DeploymentRow, ReferenceRow, ReferenceModelRow,
  RetentionRow, deployment_row, same_environment,
}
use deploy_mcp.Persistence.Insert.{◌>>=◌, ◌>>◌}
use deploy_mcp.Persistence.Rollback.Decode.{
  SnapshotCodec, decode_reference, reference_row, model_row,
}

-- Whether a row of the environment follows the first row with the identifier.
unfoldable pub newer_exists : String → String → String → List DeploymentRow → Bool
newer_exists id application environment [] = false
newer_exists id application environment (row ∷ rows) =
    let rest = newer_exists id application environment rows in
    if str_eq row.id id
    then any
        (λ (r : DeploymentRow).
          same_environment application environment r.application_id r.environment_id)
        rows
    else rest

unfoldable pub is_eligible : DeploymentRow → Bool
is_eligible row = str_eq row.state "succeeded" || str_eq row.state "rollback_failed"

unfoldable pub found_source : DeploymentId → Option DeploymentRow → RepositoryResult DeploymentRow
found_source id none = err (not_found id)
found_source id (some row) = ok row

-- The source is eligible and the latest of its environment.
unfoldable pub check_source :
    DeploymentId → String → String → DeploymentRow → Database → RepositoryResult (Unit {0})
unfolding is_eligible newer_exists
check_source id application environment row db =
    if not (is_eligible row)
    then err (
        rollback_unavailable
          (format "source deployment {} is not eligible for explicit rollback" (text id ∷ [])))
    else if newer_exists id application environment db.deployments
    then err
        (rollback_unavailable (plain "a newer deployment exists for this application/environment"))
    else ok tt

-- `UPDATE rollback_references SET state = 'superseded' … WHERE … state = 'active'`.
unfoldable pub supersede : String → String → ℕ → List ReferenceRow → List ReferenceRow
supersede application environment now [] = []
supersede application environment now (row ∷ rows) =
    (if same_environment application environment row.application_id row.environment_id
        && str_eq row.state "active"
      then record row { state = "superseded"; updated_at_unix_ms = now }
      else row)
    ∷ supersede application environment now rows

snapshot_row : RollbackReference → RollbackMechanismSnapshot → ℕ → ReferenceRow
snapshot_row reference (jar_systemd_snapshot snapshot) now = record {
  deployment_id = reference.deployment_id;
  application_id = reference.application;
  environment_id = reference.environment;
  target = reference.target;
  backup_path = snapshot.backup_path;
  install_path = snapshot.install_path;
  rollback_task = snapshot.rollback_task;
  restart_task = snapshot.restart_task;
  health_check_task = snapshot.health_check_task;
  state = "active";
  created_at_unix_ms = now;
  updated_at_unix_ms = now;
}

unfoldable pub new_reference : RollbackReference → ℕ → ReferenceRow
unfolding snapshot_row
new_reference reference now = snapshot_row reference reference.mechanism_snapshot now

check_identity : RollbackReference → DeploymentRow → RepositoryResult (Unit {0})
check_identity reference row =
    if not (str_eq row.application_id reference.application)
      || not (str_eq row.environment_id reference.environment)
    then err (corrupt_data (plain "rollback reference does not match source deployment identity"))
    else ok tt

module _ (sha256 : Sha256) (codec : SnapshotCodec) where
  new_model : RollbackReference → ReferenceModelRow
  new_model reference = record {
    deployment_id = reference.deployment_id;
    mechanism_kind = kind_name reference.mechanism_kind;
    contract_fingerprint = reference.contract_fingerprint;
    mechanism_snapshot_json = codec.to_json reference.mechanism_snapshot;
  }

  -- A reference that is there already is kept where it is active.
  insert_reference :
      RollbackReference
      → ℕ
      → Database
      → Option ReferenceRow
      → RepositoryResult ((Unit {0}) × Database)
  unfolding new_model
  insert_reference reference now db (some existing) =
      if str_eq existing.state "active"
      then ok (tt, db)
      else err (
          rollback_unavailable (
            format "rollback reference for {} is already {existing}"
              (text reference.deployment_id ∷ text existing.state ∷ [])))
  insert_reference reference now db none =
      if is_some (model_row reference.deployment_id db)
        || not (len reference.contract_fingerprint == 64)
      then err (storage (plain "constraint failed: rollback_reference_model"))
      else ok (
        tt,
        record db {
          references =
              supersede reference.application reference.environment now db.references
              ++ new_reference reference now ∷ [];
          reference_models = db.reference_models ++ new_model reference ∷ [];
        },
      )

  record_body : RollbackReference → ℕ → Database → RepositoryResult ((Unit {0}) × Database)
  unfolding insert_reference check_identity
  record_body reference now db = do
    row ← found_source reference.deployment_id (deployment_row reference.deployment_id db)
    check_identity reference row
    check_source reference.deployment_id row.application_id row.environment_id row db
    insert_reference reference now db (reference_row reference.deployment_id db)

  unfoldable pub record_reference :
      RollbackReference → Connection → RepositoryResult (Unit {0}) × Connection
  unfolding record_body
  record_reference reference = transaction (record_body reference)

  decode_found : Option ReferenceRow → Database → RepositoryResult (Option RollbackReference)
  decode_found none db = ok none
  decode_found (some row) db = do
    reference ← decode_reference sha256 codec row (model_row row.deployment_id db)
    ok (some reference)

  -- A reference whose snapshot was pruned is not found.
  unfoldable pub get_reference :
      DeploymentId → Connection → RepositoryResult (Option RollbackReference)
  unfolding decode_found
  get_reference id = query (λ db.
      if any (λ (r : RetentionRow). str_eq r.deployment_id id) db.retention
      then ok none
      else decode_found (reference_row id db) db)
