-- ===== src/Application/Deploy/Run.antt =====
-- src/application/deploy.rs: the phases of a reserved deployment, its automatic rollback and how a
-- failure ends it.
pub mod Ending
pub mod Phase
pub mod Steps
pub mod Recovering
pub mod Settled
use deploy_mcp.Prelude.{ℕ, String, Bool, true, false, not, ◌&&◌, Option, none, some, if◌then◌else◌}
use deploy_mcp.Config.{Config, EnvironmentConfig}
use deploy_mcp.Error.{
  precheck_failed, remote_execution_failed, verification_failed, rollback_unavailable,
  is_operation_timed_out, plain,
}
use deploy_mcp.Domain.State.{
  prechecking, staging_artifact, backing_up, installing, restarting, verifying, succeeded, failed,
  rolling_back, rolled_back, rollback_failed, has_live_mutation_started,
}
use deploy_mcp.Domain.Release.{DeploymentId, ReleaseIdentity, local_file, container_image}
use deploy_mcp.Domain.Plan.{
  DeploymentLifecycleOperation, DeploymentStep, DeploymentPlan, requires_rollback_after_failure,
}
use deploy_mcp.Domain.Deployment.{Deployment}
use deploy_mcp.Ports.{DeploymentRepository}
use deploy_mcp.Application.Mechanism.{RollbackMechanismAction, DeploymentMechanismPort}
use deploy_mcp.Application.Exec.{App, pure, panic, ◌>>=◌, ◌>>◌}
use deploy_mcp.Application.Deploy.Failure.{DeploymentFailure, DeploymentOutcome, failure_new}
use deploy_mcp.Application.Deploy.Attempt.{
  World, transition, execute_capability_preflight, execute_upload, execute_mechanism_task,
  execute_current_rollback_task, retry_verification,
}

abbrev pub outcome :
    Deployment → Option DeploymentFailure → Option DeploymentFailure → Bool → DeploymentOutcome
outcome d failure rollback_failure replay = record {
  deployment = d;
  failure = failure;
  rollback_failure = rollback_failure;
  idempotent_replay = replay;
}

-- `if let Some(failure) = … { return handle(failure) }`, and the rest of the method.
unfoldable pub on_failure :
    {W A : Type 0} → Option DeploymentFailure → (DeploymentFailure → App W A) → App W A → App W A
on_failure none handle rest = rest
on_failure (some failure) handle rest = handle failure

-- `deployment.artifact().size_bytes()`.
artifact_size : {W : Type 0} → ReleaseIdentity → App W ℕ
artifact_size (local_file artifact) = pure artifact.size_bytes
artifact_size (container_image image) = panic "artifact() is only valid for local-file deployments"

module _ {S R : Type 0} (port : DeploymentRepository S) (mechanism : DeploymentMechanismPort R)
    (config : Config) where
  pub execute_verification :
      DeploymentId → EnvironmentConfig → App (World S R) (Option DeploymentFailure)
  execute_verification id environment =
      retry_verification
        (execute_mechanism_task port mechanism config id DeploymentStep.verify environment
          DeploymentLifecycleOperation.verify verification_failed "health-check task failed")
        config.runtime.verification_max_attempts

  execute_current_rollback_verification :
      DeploymentId → EnvironmentConfig → App (World S R) (Option DeploymentFailure)
  execute_current_rollback_verification id environment =
      retry_verification
        (execute_current_rollback_task port mechanism config id DeploymentStep.verify environment
          RollbackMechanismAction.verify "rollback verification task failed")
        config.runtime.verification_max_attempts

  rollback_restart : DeploymentId → EnvironmentConfig → App (World S R) (Option DeploymentFailure)
  rollback_restart id environment = do
    failure ←
        execute_current_rollback_task port mechanism config id DeploymentStep.restart environment
          RollbackMechanismAction.activate "rollback restart task failed"
    on_failure failure (λ f. pure (some f)) (execute_current_rollback_verification id environment)

  rollback_restore : DeploymentId → EnvironmentConfig → App (World S R) (Option DeploymentFailure)
  rollback_restore id environment = do
    failure ←
        execute_current_rollback_task port mechanism config id DeploymentStep.install environment
          RollbackMechanismAction.restore "rollback restore task failed"
    on_failure failure (λ f. pure (some f)) (rollback_restart id environment)

  execute_rollback : DeploymentId → EnvironmentConfig → App (World S R) (Option DeploymentFailure)
  execute_rollback id environment =
      if mechanism.rollback_is_configured environment
      then rollback_restore id environment
      else pure (
          some (
            failure_new DeploymentStep.install rollback_unavailable
              (plain "rollback was required but no rollback task is configured")))

  -- How a rollback ends the deployment: cut off by a timeout it stays `rolling_back`.
  finish_rollback :
      Deployment → DeploymentFailure → Option DeploymentFailure → App (World S R) DeploymentOutcome
  finish_rollback d failure none = do
    rolled ← transition port d rolled_back
    pure (outcome rolled (some failure) none false)
  finish_rollback d failure (some rollback_failure) =
      if is_operation_timed_out rollback_failure.code
      then pure (outcome d (some failure) (some rollback_failure) false)
      else (do
        rolled ← transition port d rollback_failed
        pure (outcome rolled (some failure) (some rollback_failure) false))

  roll_back : Deployment → EnvironmentConfig → DeploymentFailure → App (World S R) DeploymentOutcome
  roll_back d environment failure = do
    rolling ← transition port d rolling_back
    rollback_failure ← execute_rollback rolling.id environment
    finish_rollback rolling failure rollback_failure

  record_failure : Deployment → DeploymentFailure → App (World S R) DeploymentOutcome
  record_failure d failure = do
    ended ← transition port d failed
    pure (outcome ended (some failure) none false)

  pub finish_primary_failure :
      Deployment
      → DeploymentPlan
      → EnvironmentConfig
      → DeploymentFailure
      → App (World S R) DeploymentOutcome
  finish_primary_failure d plan environment failure =
      if is_operation_timed_out failure.code && has_live_mutation_started d.state
      then pure (outcome d (some failure) none false)
      else if not (requires_rollback_after_failure plan failure.step)
      then record_failure d failure
      else roll_back d environment failure

  module _ (plan : DeploymentPlan) (environment : EnvironmentConfig) (artifact_path : String) where
    succeed : Deployment → App (World S R) DeploymentOutcome
    succeed d = do done ← transition port d succeeded; pure (outcome done none none false)

    verify : Deployment → App (World S R) DeploymentOutcome
    verify d = do
      now ← transition port d verifying
      failure ← execute_verification now.id environment
      on_failure failure (finish_primary_failure now plan environment) (succeed now)

    restart : Deployment → App (World S R) DeploymentOutcome
    restart d = do
      now ← transition port d restarting
      failure ←
          execute_mechanism_task port mechanism config now.id DeploymentStep.restart environment
            DeploymentLifecycleOperation.activate remote_execution_failed "restart task failed"
      on_failure failure (finish_primary_failure now plan environment) (verify now)

    install : Deployment → App (World S R) DeploymentOutcome
    install d = do
      now ← transition port d installing
      failure ←
          execute_mechanism_task port mechanism config now.id DeploymentStep.install environment
            DeploymentLifecycleOperation.apply remote_execution_failed "install task failed"
      on_failure failure (finish_primary_failure now plan environment) (restart now)

    back_up : Deployment → App (World S R) DeploymentOutcome
    back_up d = do
      now ← transition port d backing_up
      failure ←
          execute_mechanism_task port mechanism config now.id DeploymentStep.backup_current
            environment DeploymentLifecycleOperation.capture_rollback remote_execution_failed
            "backup task failed"
      on_failure failure (finish_primary_failure now plan environment) (install now)

    stage : Deployment → App (World S R) DeploymentOutcome
    stage d = do
      staging ← transition port d staging_artifact
      size ← artifact_size staging.release_identity
      failure ← execute_upload port mechanism config staging.id environment artifact_path size
      on_failure failure (finish_primary_failure staging plan environment) (back_up staging)

    precheck : Deployment → App (World S R) DeploymentOutcome
    precheck d =
        if mechanism.precheck_is_configured environment
        then (do
          failure ←
              execute_mechanism_task port mechanism config d.id DeploymentStep.precheck environment
                DeploymentLifecycleOperation.precheck precheck_failed
                "configured precheck task failed"
          on_failure failure (finish_primary_failure d plan environment) (stage d))
        else stage d

    -- The part of `deploy` that follows the plan.
    pub run : Deployment → App (World S R) DeploymentOutcome
    run d = do
      now ← transition port d prechecking
      failure ← execute_capability_preflight port mechanism config now.id environment
      on_failure failure (finish_primary_failure now plan environment) (precheck now)
