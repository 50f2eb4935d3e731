-- ===== src/Domain/Plan/Boundary.antt =====
-- The plan and the state machine agree on when a failure rolls back.
use deploy_mcp.Prelude.{String, ◌≡◌, Bool, ◌&&◌, some, ok, if◌then◌else◌, arith}
use deploy_mcp.Domain.State.{
  DeploymentState, prechecking, staging_artifact, backing_up, installing, restarting, verifying,
  rolling_back, failed, can_transition_to, has_live_artifact_replacement_started,
}
use deploy_mcp.Domain.Release.{DeploymentId, DeploymentMechanismKind, ReleaseIdentity}
use deploy_mcp.Domain.Deployment.{Deployment, fail}
use deploy_mcp.Domain.Plan.{
  DeploymentStep, durable_step, lifecycle_operation, DeploymentPlan, generic,
  requires_rollback_after_failure,
}

-- The state that a deployment is in while a step runs.
abbrev pub state_of_step : DeploymentStep → DeploymentState
state_of_step DeploymentStep.precheck = prechecking
state_of_step DeploymentStep.stage_artifact = staging_artifact
state_of_step DeploymentStep.backup_current = backing_up
state_of_step DeploymentStep.install = installing
state_of_step DeploymentStep.restart = restarting
state_of_step DeploymentStep.verify = verifying

pub durable_step-lifecycle_operation :
    (s : DeploymentStep) → durable_step (lifecycle_operation s) ≡ some s
unfolding durable_step lifecycle_operation
durable_step-lifecycle_operation s = ground arith

pub requires_rollback-generic :
    (id : DeploymentId) (target : String) (kind : DeploymentMechanismKind)
    (release : ReleaseIdentity) (available : Bool) (plan : DeploymentPlan) (s : DeploymentStep)
    → generic id target kind release available ≡ ok plan
    → requires_rollback_after_failure plan s
      ≡ (available && has_live_artifact_replacement_started (state_of_step s))
unfolding generic requires_rollback_after_failure has_live_artifact_replacement_started
requires_rollback-generic id target kind release available plan s h = ground arith

-- A generic plan requires a rollback after a failed step exactly when `Deployment::fail` rolls back
-- in the state of that step.
pub fail-requires_rollback :
    (id : DeploymentId) (target : String) (kind : DeploymentMechanismKind)
    (release : ReleaseIdentity) (available : Bool) (plan : DeploymentPlan) (s : DeploymentStep)
    (d : Deployment)
    → generic id target kind release available ≡ ok plan
    → d.state ≡ state_of_step s
    → fail d available
      ≡ ok (record d {
        state = if requires_rollback_after_failure plan s then rolling_back else failed;
      })
unfolding generic requires_rollback_after_failure has_live_artifact_replacement_started fail
    can_transition_to
fail-requires_rollback id target kind release available plan s d h e = ground arith
