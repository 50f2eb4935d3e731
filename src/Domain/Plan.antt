-- ===== src/Domain/Plan.antt =====
-- src/domain/plan.rs: lifecycle operations, durable steps, the rollback boundary and the plan.
pub mod Boundary
use deploy_mcp.Prelude.{
  ℕ, String, Bool, ◌&&◌, Option, none, some, List, [], ◌∷◌, Result, ok, err, leb, if◌then◌else◌,
}
use deploy_mcp.Text.{is_blank}
use deploy_mcp.Domain.Release.{
  DeploymentId, DeploymentMechanismKind, ReleaseIdentity, local_file,
  jar_systemd as jar_systemd_kind, Artifact, DeploymentError, invalid_plan_target,
}

pub data DeploymentLifecycleOperation : Type 0 where
  validate precheck prepare capture_rollback apply activate verify : DeploymentLifecycleOperation

pub data DeploymentStep : Type 0 where
  precheck stage_artifact backup_current install restart verify : DeploymentStep

unfoldable pub durable_step : DeploymentLifecycleOperation → Option DeploymentStep
durable_step DeploymentLifecycleOperation.validate = none
durable_step DeploymentLifecycleOperation.precheck = some DeploymentStep.precheck
durable_step DeploymentLifecycleOperation.prepare = some DeploymentStep.stage_artifact
durable_step DeploymentLifecycleOperation.capture_rollback = some DeploymentStep.backup_current
durable_step DeploymentLifecycleOperation.apply = some DeploymentStep.install
durable_step DeploymentLifecycleOperation.activate = some DeploymentStep.restart
durable_step DeploymentLifecycleOperation.verify = some DeploymentStep.verify

unfoldable pub lifecycle_operation : DeploymentStep → DeploymentLifecycleOperation
lifecycle_operation DeploymentStep.precheck = DeploymentLifecycleOperation.precheck
lifecycle_operation DeploymentStep.stage_artifact = DeploymentLifecycleOperation.prepare
lifecycle_operation DeploymentStep.backup_current = DeploymentLifecycleOperation.capture_rollback
lifecycle_operation DeploymentStep.install = DeploymentLifecycleOperation.apply
lifecycle_operation DeploymentStep.restart = DeploymentLifecycleOperation.activate
lifecycle_operation DeploymentStep.verify = DeploymentLifecycleOperation.verify

unfoldable pub lifecycle_order : DeploymentLifecycleOperation → ℕ
lifecycle_order DeploymentLifecycleOperation.validate = 0
lifecycle_order DeploymentLifecycleOperation.precheck = 1
lifecycle_order DeploymentLifecycleOperation.prepare = 2
lifecycle_order DeploymentLifecycleOperation.capture_rollback = 3
lifecycle_order DeploymentLifecycleOperation.apply = 4
lifecycle_order DeploymentLifecycleOperation.activate = 5
lifecycle_order DeploymentLifecycleOperation.verify = 6

pub record RollbackBoundary : Type 0 where
  pub first_live_mutation : DeploymentLifecycleOperation

-- `RollbackBoundary::generic`.
unfoldable pub generic_boundary : RollbackBoundary
generic_boundary = record { first_live_mutation = DeploymentLifecycleOperation.apply }

unfoldable pub requires_rollback_after_operation :
    RollbackBoundary → DeploymentLifecycleOperation → Bool → Bool
requires_rollback_after_operation boundary failed_operation rollback_available =
    rollback_available
    && leb (lifecycle_order boundary.first_live_mutation) (lifecycle_order failed_operation)

pub record DeploymentPlan : Type 0 where
  pub deployment_id : DeploymentId
  pub target : String
  pub mechanism_kind : DeploymentMechanismKind
  pub release_identity : ReleaseIdentity
  pub operations : List DeploymentLifecycleOperation
  pub rollback_boundary : RollbackBoundary
  pub rollback_available : Bool

-- `DeploymentPlan::generic`.
unfoldable pub generic :
    DeploymentId
    → String
    → DeploymentMechanismKind
    → ReleaseIdentity
    → Bool
    → Result DeploymentError DeploymentPlan
unfolding generic_boundary
generic deployment_id target mechanism_kind release_identity rollback_available =
    if is_blank target
    then err invalid_plan_target
    else ok (record {
      deployment_id = deployment_id;
      target = target;
      mechanism_kind = mechanism_kind;
      release_identity = release_identity;
      operations =
          DeploymentLifecycleOperation.validate ∷ DeploymentLifecycleOperation.precheck
          ∷ DeploymentLifecycleOperation.prepare ∷ DeploymentLifecycleOperation.capture_rollback
          ∷ DeploymentLifecycleOperation.apply ∷ DeploymentLifecycleOperation.activate
          ∷ DeploymentLifecycleOperation.verify ∷ [];
      rollback_boundary = generic_boundary;
      rollback_available = rollback_available;
    })

-- `DeploymentPlan::jar_systemd`.
unfoldable pub jar_systemd :
    DeploymentId → String → Artifact → Bool → Result DeploymentError DeploymentPlan
unfolding generic
jar_systemd deployment_id target artifact rollback_available =
    generic deployment_id target jar_systemd_kind (local_file artifact) rollback_available

-- `requires_rollback_after_failure` of the plan, through that of its boundary.
unfoldable pub requires_rollback_after_failure : DeploymentPlan → DeploymentStep → Bool
unfolding requires_rollback_after_operation lifecycle_operation lifecycle_order
requires_rollback_after_failure plan failed_step =
    requires_rollback_after_operation plan.rollback_boundary (lifecycle_operation failed_step)
      plan.rollback_available
