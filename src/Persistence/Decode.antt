-- ===== src/Persistence/Decode.antt =====
-- src/persistence.rs: `decode_deployment`, `get` and `list_non_terminal`.
pub mod Laws
use deploy_mcp.Prelude.{
  ℕ, ◌+◌, ◌^◌, Bool, true, not, ◌&&◌, ◌||◌, Option, none, some, List, [], ◌∷◌, ◌++◌, Result, ok,
  err, any, filter, ◌==◌, if◌then◌else◌,
}
use deploy_mcp.Error.{plain}
use deploy_mcp.Domain.Release.{
  DeploymentError, DeploymentId, DeploymentMechanismKind, jar_systemd, parse_kind, Artifact,
  artifact_new, artifact_eq, ReleaseIdentity, local_file, container_image, id_new,
}
use deploy_mcp.Domain.Deployment.{Deployment, rehydrate_with_release}
use deploy_mcp.Ports.{RepositoryResult, corrupt_data}
use deploy_mcp.Persistence.Names.{parse_state}
use deploy_mcp.Persistence.Schema.{
  DeploymentRow, MetadataRow, Database, Connection, query, deployment_row, metadata_row,
  is_active_row, order_by_creation,
}
use deploy_mcp.Persistence.Insert.{Codec, ◌>>=◌, ◌>>◌}

unfoldable pub corrupt_domain : {A : Type 0} → Result DeploymentError A → RepositoryResult A
corrupt_domain (ok a) = ok a
corrupt_domain (err e) = err (corrupt_data (plain "{error}"))

module _ (codec : Codec) where
  -- A local-file release must be that of the row's columns.
  local_matches : Artifact → ReleaseIdentity → Bool
  local_matches legacy (local_file artifact) = artifact_eq artifact legacy
  local_matches legacy (container_image image) = true

  checked_release :
      Artifact
      → Option DeploymentMechanismKind
      → Option ReleaseIdentity
      → RepositoryResult (DeploymentMechanismKind × ReleaseIdentity)
  checked_release legacy none release =
      err (corrupt_data (plain "unknown deployment mechanism kind: {mechanism_kind}"))
  checked_release legacy (some kind) none =
      err (corrupt_data (plain "invalid deployment release identity metadata: {error}"))
  checked_release legacy (some kind) (some release) =
      if local_matches legacy release
      then ok (kind, release)
      else err
          (corrupt_data (plain "generic release identity does not match legacy local-file columns"))

  -- The mechanism and the release of a row, from its metadata where it has any.
  model_of :
      Artifact → Option MetadataRow → RepositoryResult (DeploymentMechanismKind × ReleaseIdentity)
  model_of legacy none = ok (jar_systemd, local_file legacy)
  model_of legacy (some row) =
      checked_release legacy (parse_kind row.mechanism_kind)
        (codec.from_json row.release_identity_json)

  unfoldable pub decode_deployment :
      DeploymentRow → Option MetadataRow → RepositoryResult Deployment
  unfolding corrupt_domain model_of checked_release local_matches
  decode_deployment row model = do
    id ← corrupt_domain (id_new "DeploymentId" row.id)
    application ← corrupt_domain (id_new "ApplicationId" row.application_id)
    environment ← corrupt_domain (id_new "EnvironmentId" row.environment_id)
    legacy ←
        corrupt_domain
          (artifact_new row.artifact_version row.artifact_size_bytes row.artifact_sha256)
    kind_release ← model_of legacy model
    state ← parse_state row.state
    ok (rehydrate_with_release id application environment kind_release.0 kind_release.1 state)

  decode_optional : Option DeploymentRow → Database → RepositoryResult (Option Deployment)
  decode_optional none db = ok none
  decode_optional (some row) db = do d ← decode_deployment row (metadata_row row.id db); ok (some d)

  unfoldable pub get : DeploymentId → Connection → RepositoryResult (Option Deployment)
  unfolding decode_optional
  get id = query (λ db. decode_optional (deployment_row id db) db)

  unfoldable pub decode_all : Database → List DeploymentRow → RepositoryResult (List Deployment)
  decode_all db [] = ok []
  decode_all db (row ∷ rows) = do
    d ← decode_deployment row (metadata_row row.id db)
    ds ← decode_all db rows
    ok (d ∷ ds)

  unfoldable pub list_non_terminal : Connection → RepositoryResult (List Deployment)
  list_non_terminal =
      query (λ db. decode_all db (filter is_active_row (order_by_creation db.deployments)))
