-- ===== src/Application/Deploy/Attempt.antt =====
-- src/application/deploy.rs: the calls of the repository and the recorded attempts of a step. The
-- service runs over the states of the repository and of the remote side, the calls of the mechanism
-- that were made, the latest first, and the active leases. A call is kept with the states that the
-- repository and the remote side had when it was made.
pub mod Trace
pub mod Rules
use deploy_mcp.Prelude.{
  ℕ, zero, suc, String, Bool, true, false, Option, none, some, List, [], ◌∷◌, ◌++◌, Result, ok, err,
  ◌==◌, map_err, if◌then◌else◌,
}
use deploy_mcp.Config.{Config, EnvironmentConfig}
use deploy_mcp.Error.{
  ErrorCode, rollback_failed, invalid_state_transition, app_error, wrapped, is_operation_timed_out,
  Message, format, in_state,
}
use deploy_mcp.Domain.State.{DeploymentState}
use deploy_mcp.Domain.Release.{DeploymentError, DeploymentId}
use deploy_mcp.Domain.Plan.{DeploymentLifecycleOperation, DeploymentStep}
use deploy_mcp.Domain.Deployment
use deploy_mcp.Domain.Deployment.{Deployment}
use deploy_mcp.Ports.{
  StepAttemptId, StepAttemptStatus, succeeded, failed, RepositoryResult, DeploymentRepository,
}
use deploy_mcp.Application.Lock.{Key}
use deploy_mcp.Application.Mechanism.{Timed, RollbackMechanismAction, DeploymentMechanismPort}
use deploy_mcp.Application.Exec.{App, error, pure, raise, panic, ◌>>=◌, ◌>>◌}
use deploy_mcp.Application.Deploy.Failure.{
  DeploymentFailure, persisted_message, preflight_verdict, upload_verdict, task_verdict,
  repository_error,
}

pub data MechanismCall : Type 0 where
  preflight prepare : MechanismCall
  execute : DeploymentLifecycleOperation → MechanismCall
  execute_current_rollback : RollbackMechanismAction → MechanismCall

-- A call that was made, with the store and the remote side at that time.
pub record Call (S R : Type 0) : Type 0 where
  pub made : MechanismCall
  pub store : S
  pub remote : R

pub record World (S R : Type 0) : Type 0 where
  pub repository : S
  pub remote : R
  pub calls : List (Call S R)
  pub active : List Key

module _ {S R : Type 0} where
  -- `self.repository(operation)`.
  unfoldable pub repository : {A : Type 0} → (S → RepositoryResult A × S) → App (World S R) A
  repository operation w =
      let (r, s) = operation w.repository in
      (map_err (λ e. error (repository_error e)) r, record w { repository = s })

  -- A call of the mechanism under the step's timeout.
  unfoldable pub await :
      {A : Type 0} → MechanismCall → (R → Timed A × R) → App (World S R) (Timed A)
  await call operation w =
      let (r, s) = operation w.remote in
      let event : Call S R = record { made = call; store = w.repository; remote = w.remote } in
      (ok r, record w { remote = s; calls = event ∷ w.calls })

  module _ (port : DeploymentRepository S) where
    start_attempt : DeploymentId → DeploymentStep → App (World S R) StepAttemptId
    start_attempt id step = repository (port.start_step id step)

    finish_attempt : StepAttemptId → StepAttemptStatus → Option Message → App (World S R) (Unit {0})
    finish_attempt attempt status message = repository (port.finish_step attempt status message)

    finish_from_failure : StepAttemptId → Option DeploymentFailure → App (World S R) (Unit {0})
    finish_from_failure attempt none = finish_attempt attempt succeeded none
    finish_from_failure attempt (some failure) =
        finish_attempt attempt failed (some (persisted_message failure))

    -- The frame of the four methods that record an attempt, await the mechanism and judge its result.
    pub attempt_step :
        {A : Type 0}
        → DeploymentId
        → DeploymentStep
        → MechanismCall
        → (R → Timed A × R)
        → (Timed A → Option DeploymentFailure)
        → App (World S R) (Option DeploymentFailure)
    attempt_step id step call operation verdict = do
      attempt ← start_attempt id step
      result ← await call operation
      finish_from_failure attempt (verdict result)
      pure (verdict result)

    -- `transition`: the new deployment, once it is durable.
    advance :
        Deployment
        → DeploymentState
        → Result DeploymentError Deployment
        → App (World S R) Deployment
    advance d next (err e) = raise (
        app_error invalid_state_transition (
          format "invalid deployment transition: {from:?} -> {to:?}"
            (in_state d.state ∷ in_state next ∷ [])))
    advance d next (ok candidate) = do
      repository (port.persist_transition d.id d.state next)
      pure candidate

    pub transition : Deployment → DeploymentState → App (World S R) Deployment
    transition d next = advance d next (Deployment.transition d next)

    module _ (mechanism : DeploymentMechanismPort R) (config : Config) where
      unfoldable pub execute_capability_preflight :
          DeploymentId → EnvironmentConfig → App (World S R) (Option DeploymentFailure)
      execute_capability_preflight id environment =
          attempt_step id DeploymentStep.precheck preflight (mechanism.preflight environment)
            (preflight_verdict config.runtime.deployment_step_timeout_ms)

      unfoldable pub execute_upload :
          DeploymentId → EnvironmentConfig → String → ℕ → App (World S R) (Option DeploymentFailure)
      execute_upload id environment local_path expected_bytes =
          attempt_step id DeploymentStep.stage_artifact prepare
            (mechanism.prepare environment local_path)
            (upload_verdict config.runtime.deployment_step_timeout_ms expected_bytes)

      unfoldable pub execute_mechanism_task :
          DeploymentId
          → DeploymentStep
          → EnvironmentConfig
          → DeploymentLifecycleOperation
          → ErrorCode
          → String
          → App (World S R) (Option DeploymentFailure)
      execute_mechanism_task id step environment operation failure_code action =
          attempt_step id step (execute operation) (mechanism.execute environment operation)
            (task_verdict config.runtime.deployment_step_timeout_ms step failure_code action)

      unfoldable pub execute_current_rollback_task :
          DeploymentId
          → DeploymentStep
          → EnvironmentConfig
          → RollbackMechanismAction
          → String
          → App (World S R) (Option DeploymentFailure)
      execute_current_rollback_task id step environment action message =
          attempt_step id step (execute_current_rollback action)
            (mechanism.execute_current_rollback environment action)
            (task_verdict config.runtime.deployment_step_timeout_ms step rollback_failed message)

-- What follows a verification attempt with `left` attempts to go: `again` is the next round of the loop.
-- The delay before it changes nothing.
after_verification :
    {W : Type 0}
    → ℕ
    → App W (Option DeploymentFailure)
    → Option DeploymentFailure
    → App W (Option DeploymentFailure)
after_verification left again none = pure none
after_verification left again (some failure) =
    if is_operation_timed_out failure.code
    then pure (some failure)
    else if left == 0
    then pure (some failure)
    else again

-- `for attempt in 1..=max_attempts`, by the attempts that are left.
pub retry_verification :
    {W : Type 0} → App W (Option DeploymentFailure) → ℕ → App W (Option DeploymentFailure)
retry_verification verify zero =
    panic "validated verification policy always has at least one attempt"
retry_verification verify (suc left) =
    verify >>= after_verification left (retry_verification verify left)
