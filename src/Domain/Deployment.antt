-- ===== src/Domain/Deployment.antt =====
-- src/domain/deployment.rs: `Deployment` and the operations that change its state.
pub mod Laws
use deploy_mcp.Prelude.{◌&&◌, Option, Result, ok, err, if◌then◌else◌, Bool}
use deploy_mcp.Domain.State.{
  DeploymentState, created, failed, rolling_back, can_transition_to,
  has_live_artifact_replacement_started,
}
use deploy_mcp.Domain.Release.{
  ApplicationId, EnvironmentId, DeploymentId, DeploymentMechanismKind, jar_systemd, Artifact,
  ReleaseIdentity, local_file, DeploymentError, invalid_transition,
}

pub record Deployment : Type 0 where
  pub id : DeploymentId
  pub application : ApplicationId
  pub environment : EnvironmentId
  pub mechanism_kind : DeploymentMechanismKind
  pub release_identity : ReleaseIdentity
  pub state : DeploymentState

unfoldable pub rehydrate_with_release :
    DeploymentId
    → ApplicationId
    → EnvironmentId
    → DeploymentMechanismKind
    → ReleaseIdentity
    → DeploymentState
    → Deployment
rehydrate_with_release id application environment mechanism_kind release_identity state = record {
  id = id;
  application = application;
  environment = environment;
  mechanism_kind = mechanism_kind;
  release_identity = release_identity;
  state = state;
}

unfoldable pub new_with_release :
    DeploymentId
    → ApplicationId
    → EnvironmentId
    → DeploymentMechanismKind
    → ReleaseIdentity
    → Deployment
unfolding rehydrate_with_release
new_with_release id application environment mechanism_kind release_identity =
    rehydrate_with_release id application environment mechanism_kind release_identity created

-- `Deployment::new` and `Deployment::rehydrate`, for the local JAR model.
unfoldable pub new : DeploymentId → ApplicationId → EnvironmentId → Artifact → Deployment
unfolding new_with_release
new id application environment artifact =
    new_with_release id application environment jar_systemd (local_file artifact)

unfoldable pub rehydrate :
    DeploymentId → ApplicationId → EnvironmentId → Artifact → DeploymentState → Deployment
unfolding rehydrate_with_release
rehydrate id application environment artifact state =
    rehydrate_with_release id application environment jar_systemd (local_file artifact) state

-- `Deployment::transition` returns the changed deployment; on an error it is unchanged.
unfoldable pub transition : Deployment → DeploymentState → Result DeploymentError Deployment
transition d next =
    if can_transition_to d.state next
    then ok (record d { state = next })
    else err (invalid_transition d.state next)

-- The state that `fail` goes to.
failure_state : Deployment → Bool → DeploymentState
failure_state d rollback_available =
    if has_live_artifact_replacement_started d.state && rollback_available
    then rolling_back
    else failed

unfoldable pub fail : Deployment → Bool → Result DeploymentError Deployment
unfolding failure_state transition
fail d rollback_available = transition d (failure_state d rollback_available)
