-- ===== src/Persistence/Insert.antt =====
-- src/persistence.rs: the rows that `create` and `reserve` insert, and `create`.
pub mod Laws
pub mod Keeps
use deploy_mcp.Prelude.{
  ℕ, ◌+◌, ◌^◌, String, not, ◌&&◌, ◌||◌, Option, none, some, [], ◌∷◌, ◌++◌, ok, err, any, ltb, ◌==◌,
  if◌then◌else◌, is_some,
}
use deploy_mcp.Text.{char_count}
use deploy_mcp.Error.{plain}
use deploy_mcp.Domain.Release.{kind_name, Artifact, ReleaseIdentity, local_file, container_image}
use deploy_mcp.Domain.Deployment.{Deployment}
use deploy_mcp.Ports.{RepositoryError, RepositoryResult, storage, already_exists}
use deploy_mcp.Persistence.Names.{state_name}
use deploy_mcp.Persistence.Schema.{
  DeploymentRow, Database, Connection, transaction, active_in, started_in, unresolved_in,
  deployment_row, metadata_row, is_active_row,
}

-- serde_json on release identities.
pub record Codec : Type 0 where
  pub to_json : ReleaseIdentity → String
  pub from_json : String → Option ReleaseIdentity

infixl 10 ◌>>=◌ ◌>>◌
abbrev pub ◌>>=◌ :
    {A B : Type 0} → RepositoryResult A → (A → RepositoryResult B) → RepositoryResult B
ok a >>= f = f a
err e >>= f = err e

abbrev pub ◌>>◌ :
    {B : Type 0} → RepositoryResult (Unit {0}) → RepositoryResult B → RepositoryResult B
m >> k = m >>= λ u. k

artifact_of : ReleaseIdentity → RepositoryResult Artifact
artifact_of (local_file artifact) = ok artifact
artifact_of (container_image image) =
    err (
      storage (plain "container release persistence is reserved for the phase 9 mechanism adapter"))

unfoldable pub local_artifact : Deployment → RepositoryResult Artifact
unfolding artifact_of
local_artifact d = artifact_of d.release_identity

-- `i64::try_from`.
unfoldable pub sqlite_integer : ℕ → RepositoryResult ℕ
sqlite_integer n =
    if ltb n (2 ^ 63)
    then ok n
    else err (storage (plain "artifact size does not fit SQLite INTEGER"))

-- What refuses the insertion of a deployment: a trigger, a CHECK or a unique index.
pub data Violation : Type 0 where
  blocked unsound duplicate_id active_environment : Violation

unfoldable pub insert_violation : DeploymentRow → Database → Option Violation
insert_violation row db =
    if any (started_in row.application_id row.environment_id) db.rollback_operations
      || any (unresolved_in row.application_id row.environment_id) db.recovery_incidents
    then some blocked
    else if row.artifact_size_bytes == 0 || not (char_count row.artifact_sha256 == 64)
    then some unsound
    else if is_some (deployment_row row.id db)
    then some duplicate_id
    else if is_active_row row
        && any (active_in row.application_id row.environment_id) db.deployments
    then some active_environment
    else none

-- The row that `create` and `reserve` insert.
unfoldable pub new_row : Deployment → Artifact → ℕ → ℕ → DeploymentRow
new_row d artifact size now = record {
  id = d.id;
  application_id = d.application;
  environment_id = d.environment;
  artifact_version = artifact.version;
  artifact_size_bytes = size;
  artifact_sha256 = artifact.sha256;
  state = state_name d.state;
  created_at_unix_ms = now;
  updated_at_unix_ms = now;
}

-- The insertion of the row, with the error of the method that makes it.
inserted :
    (Violation → RepositoryError)
    → DeploymentRow
    → Database
    → Option Violation
    → RepositoryResult Database
inserted refusal row db (some violation) = err (refusal violation)
inserted refusal row db none = ok (record db { deployments = db.deployments ++ row ∷ [] })

unfoldable pub insert_deployment :
    (Violation → RepositoryError) → DeploymentRow → Database → RepositoryResult Database
unfolding inserted
insert_deployment refusal row db = inserted refusal row db (insert_violation row db)

module _ (codec : Codec) where
  unfoldable pub insert_deployment_model_metadata :
      Deployment → Database → RepositoryResult Database
  insert_deployment_model_metadata d db =
      if is_some (metadata_row d.id db)
      then err (storage (plain "UNIQUE constraint failed: deployment_model_metadata.deployment_id"))
      else ok (record db {
        metadata =
            db.metadata
            ++ record {
              deployment_id = d.id;
              mechanism_kind = kind_name d.mechanism_kind;
              release_identity_json = codec.to_json d.release_identity;
            }
              ∷ [];
      })

  unfoldable pub create : Deployment → Connection → RepositoryResult (Unit {0}) × Connection
  create d = transaction (λ now db. do
    artifact ← local_artifact d
    size ← sqlite_integer artifact.size_bytes
    db ← insert_deployment (λ v. already_exists d.id) (new_row d artifact size now) db
    db ← insert_deployment_model_metadata d db
    ok (tt, db))
