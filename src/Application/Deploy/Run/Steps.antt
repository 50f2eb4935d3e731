-- ===== src/Application/Deploy/Run/Steps.antt =====
-- The attempts of the deployment's own tasks.
use deploy_mcp.Prelude.{String, List, ◌≡◌, refl, false, Option, some}
use deploy_mcp.Config.{Config, EnvironmentConfig}
use deploy_mcp.Error.{ErrorCode}
use deploy_mcp.Domain.State.{DeploymentState, verifying, is_terminal}
use deploy_mcp.Domain.Release.{DeploymentId}
use deploy_mcp.Domain.Plan.{
  DeploymentPlan, DeploymentStep, DeploymentLifecycleOperation, durable_step,
}
use deploy_mcp.Domain.Plan.Boundary.{state_of_step}
use deploy_mcp.Ports.{DeploymentRepository}
use deploy_mcp.Ports.Contract.{Contract}
use deploy_mcp.Application.Mechanism.{DeploymentMechanismPort}
use deploy_mcp.Application.Exec.{App}
use deploy_mcp.Application.Deploy.Failure.{DeploymentFailure}
use deploy_mcp.Application.Deploy.Attempt.{
  World, Call, MechanismCall, execute, execute_mechanism_task,
}
use deploy_mcp.Application.Deploy.Attempt.Rules.{Triple-attempt_step, Triple-retry_verification}
use deploy_mcp.Application.Deploy.Failure.Laws.{task_verdict-Of, task_verdict-none}
use deploy_mcp.Application.Deploy.Run.{execute_verification}
use deploy_mcp.Application.Deploy.Run.Phase

module _ {S R : Type 0} (port : DeploymentRepository S) (c : Contract port) (id : DeploymentId)
    (mechanism : DeploymentMechanismPort R) (environment : EnvironmentConfig) (path : String)
    (before : List (Call S R)) (plan : DeploymentPlan) where
  abbrev Attempts :
      DeploymentState
      → List MechanismCall
      → MechanismCall
      → DeploymentStep
      → App (World S R) (Option DeploymentFailure)
      → Type 0
  Attempts = Phase.Attempts port c id mechanism environment path before plan

  module _ (config : Config) where
    pub task-Attempts :
        (s : DeploymentState) (made : List MechanismCall) (j : DeploymentId) (step : DeploymentStep)
        (operation : DeploymentLifecycleOperation) (code : ErrorCode) (action : String)
        → is_terminal s ≡ false
        → j ≡ id
        → durable_step operation ≡ some step
        → state_of_step step ≡ s
        → Attempts s made
            (execute operation)
            step
            (execute_mechanism_task port mechanism config j step environment operation code action)
    unfolding execute_mechanism_task
    task-Attempts s made j step operation code action running e in_step at_state =
        Triple-attempt_step port c id mechanism environment path before s running made step
          (execute operation) _ _
          (λ r. task_verdict-none _ step code action (mechanism.execute environment operation r).0)
          (λ r. task_verdict-Of _ step code action (mechanism.execute environment operation r).0) j
          e in_step at_state

    pub execute_verification-Attempts :
        (made : List MechanismCall) (j : DeploymentId)
        → j ≡ id
        → Attempts verifying made
            (execute DeploymentLifecycleOperation.verify)
            DeploymentStep.verify
            (execute_verification port mechanism config j environment)
    unfolding execute_verification is_terminal durable_step
    execute_verification-Attempts made j e =
        Triple-retry_verification port c id mechanism environment path before verifying refl made
          (execute DeploymentLifecycleOperation.verify) DeploymentStep.verify _
          config.runtime.verification_max_attempts
          (task-Attempts verifying made j DeploymentStep.verify DeploymentLifecycleOperation.verify
            _ _ refl e refl refl)
