-- ===== src/Persistence/Reserve.antt =====
-- src/persistence.rs: `reserve`, with idempotent replay.
pub mod Laws
pub mod Keeps
pub mod Readback
use deploy_mcp.Prelude.{
  ℕ, ◌+◌, ◌^◌, String, Bool, not, ◌&&◌, ◌||◌, Option, none, some, [], ◌∷◌, ◌++◌, ok, err, any,
  find?, str_eq, ◌==◌, if◌then◌else◌,
}
use deploy_mcp.Error.{plain}
use deploy_mcp.Domain.Release.{kind_eq, Artifact, release_eq}
use deploy_mcp.Domain.Deployment.{Deployment}
use deploy_mcp.Ports.{
  DeploymentReservation, created, reused, RepositoryError, RepositoryResult, storage,
  already_exists, idempotency_conflict, artifact_version_conflict, mutation_conflict,
}
use deploy_mcp.Persistence.Schema.{
  DeploymentRow, IdempotencyRow, Database, Connection, transaction, deployment_row, metadata_row,
}
use deploy_mcp.Persistence.Insert.{
  Codec, ◌>>=◌, ◌>>◌, local_artifact, sqlite_integer, Violation, blocked, unsound, duplicate_id,
  active_environment, new_row, insert_deployment, insert_deployment_model_metadata,
}
use deploy_mcp.Persistence.Decode.{decode_deployment}

unfoldable pub same_request_identity : Deployment → Deployment → Bool
same_request_identity existing requested =
    str_eq existing.application requested.application
    && str_eq existing.environment requested.environment
    && kind_eq existing.mechanism_kind requested.mechanism_kind
    && release_eq existing.release_identity requested.release_identity

-- `reservation_insert_error`.
reservation_insert_error : Deployment → Violation → RepositoryError
reservation_insert_error d blocked = mutation_conflict d.application d.environment
reservation_insert_error d active_environment = mutation_conflict d.application d.environment
reservation_insert_error d duplicate_id = already_exists d.id
reservation_insert_error d unsound = storage (plain "CHECK constraint failed")

-- The deployment that an idempotency key is bound to.
joined : Database → Option IdempotencyRow → Option DeploymentRow
joined db none = none
joined db (some row) = deployment_row row.deployment_id db

unfoldable pub bound_row : String → Database → Option DeploymentRow
unfolding joined
bound_row key db =
    joined db (find? (λ (row : IdempotencyRow). str_eq row.idempotency_key key) db.idempotency)

-- A deployment of the same version with another checksum or size.
conflicting_version : Deployment → Artifact → ℕ → DeploymentRow → Bool
conflicting_version d artifact size row =
    str_eq row.application_id d.application
    && str_eq row.environment_id d.environment
    && str_eq row.artifact_version artifact.version
    && (not (str_eq row.artifact_sha256 artifact.sha256) || not (row.artifact_size_bytes == size))

refuse_version : Deployment → Artifact → Option DeploymentRow → RepositoryResult (Unit {0})
refuse_version d artifact none = ok tt
refuse_version d artifact (some row) = err (
    artifact_version_conflict d.application d.environment artifact.version row.artifact_sha256
      artifact.sha256)

-- The binding of the key to the new deployment; `deployment_id` is unique in the table too.
unfoldable pub bind_key : Option String → String → ℕ → Database → RepositoryResult Database
bind_key none id now db = ok db
bind_key (some key) id now db =
    if any (λ (row : IdempotencyRow). str_eq row.idempotency_key key || str_eq row.deployment_id id)
      db.idempotency
    then err (idempotency_conflict key)
    else ok (record db {
      idempotency =
          db.idempotency
          ++ record { idempotency_key = key; deployment_id = id; created_at_unix_ms = now } ∷ [];
    })

-- A request whose key is bound already: the bound deployment where it asks for the same.
replayed : String → Deployment → Deployment → RepositoryResult DeploymentReservation
replayed key d existing =
    if same_request_identity existing d
    then ok (reused existing)
    else err (idempotency_conflict key)

module _ (codec : Codec) where
  reserve_new :
      Deployment
      → Option String
      → Artifact
      → ℕ
      → ℕ
      → Database
      → RepositoryResult (DeploymentReservation × Database)
  unfolding refuse_version conflicting_version reservation_insert_error insert_deployment
      insert_deployment_model_metadata bind_key
  reserve_new d key artifact size now db = do
    refuse_version d artifact (find? (conflicting_version d artifact size) db.deployments)
    db ← insert_deployment (reservation_insert_error d) (new_row d artifact size now) db
    db ← insert_deployment_model_metadata codec d db
    db ← bind_key key d.id now db
    ok (created, db)

  reserve_bound :
      Deployment
      → String
      → Artifact
      → ℕ
      → ℕ
      → Database
      → Option DeploymentRow
      → RepositoryResult (DeploymentReservation × Database)
  unfolding reserve_new replayed
  reserve_bound d key artifact size now db none = reserve_new d (some key) artifact size now db
  reserve_bound d key artifact size now db (some row) = do
    existing ← decode_deployment codec row (metadata_row row.id db)
    reservation ← replayed key d existing
    ok (reservation, db)

  reserve_keyed :
      Deployment
      → Option String
      → Artifact
      → ℕ
      → ℕ
      → Database
      → RepositoryResult (DeploymentReservation × Database)
  unfolding reserve_new reserve_bound bound_row
  reserve_keyed d none artifact size now db = reserve_new d none artifact size now db
  reserve_keyed d (some key) artifact size now db =
      reserve_bound d key artifact size now db (bound_row key db)

  reserve_body :
      Deployment
      → Option String
      → ℕ
      → Database
      → RepositoryResult (DeploymentReservation × Database)
  unfolding local_artifact sqlite_integer reserve_keyed
  reserve_body d key now db = do
    artifact ← local_artifact d
    size ← sqlite_integer artifact.size_bytes
    reserve_keyed d key artifact size now db

  unfoldable pub reserve :
      Deployment → Option String → Connection → RepositoryResult DeploymentReservation × Connection
  unfolding reserve_body
  reserve d key = transaction (reserve_body d key)
