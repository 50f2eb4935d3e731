-- ===== src/Application/Deploy/Attempt/Trace.antt =====
-- What the calls of a run say: which of them worked, and what the store held when each was made.
use deploy_mcp.Prelude.{String, ◌≡◌, true, Option, some, List, [], ◌∷◌, ok}
use deploy_mcp.Config.{EnvironmentConfig}
use deploy_mcp.Domain.State.{DeploymentState, rolling_back}
use deploy_mcp.Domain.Release.{DeploymentId}
use deploy_mcp.Domain.Plan.{DeploymentStep, durable_step}
use deploy_mcp.Domain.Plan.Boundary.{state_of_step}
use deploy_mcp.Ports.{DeploymentRepository, RemoteTransferResult}
use deploy_mcp.Ports.Contract.{Contract}
use deploy_mcp.Application.Mechanism.{
  done, RollbackMechanismAction, MechanismTaskExecution, RemotePreflightReport,
  DeploymentMechanismPort,
}
use deploy_mcp.Application.Deploy.Attempt.{
  MechanismCall, Call, preflight, prepare, execute, execute_current_rollback,
}

-- The step that a call belongs to.
abbrev pub step_of : MechanismCall → Option DeploymentStep
step_of preflight = some DeploymentStep.precheck
step_of prepare = some DeploymentStep.stage_artifact
step_of (execute operation) = durable_step operation
step_of (execute_current_rollback RollbackMechanismAction.restore) = some DeploymentStep.install
step_of (execute_current_rollback RollbackMechanismAction.activate) = some DeploymentStep.restart
step_of (execute_current_rollback RollbackMechanismAction.verify) = some DeploymentStep.verify

-- The state of the deployment while a call of the step is made.
abbrev pub state_during : MechanismCall → DeploymentStep → DeploymentState
state_during (execute_current_rollback action) step = rolling_back
state_during preflight step = state_of_step step
state_during prepare step = state_of_step step
state_during (execute operation) step = state_of_step step

-- The calls of a rollback, the latest first.
abbrev pub rollback_calls : List MechanismCall → List MechanismCall
rollback_calls made =
    execute_current_rollback RollbackMechanismAction.verify
    ∷ execute_current_rollback RollbackMechanismAction.activate
    ∷ execute_current_rollback RollbackMechanismAction.restore
    ∷ made

module _ {S R : Type 0} (port : DeploymentRepository S) (c : Contract port) (id : DeploymentId)
    (mechanism : DeploymentMechanismPort R) (environment : EnvironmentConfig) (path : String)
    (before : List (Call S R)) where
  -- The call returned in time and without an error, and its task succeeded.
  abbrev pub Worked : MechanismCall → R → Type 0
  Worked preflight r =
      (report : RemotePreflightReport) × ((mechanism.preflight environment r).0 ≡ done (ok report))
  Worked prepare r =
      (result : RemoteTransferResult) × ((mechanism.prepare environment path r).0
        ≡ done (ok result))
  Worked (execute operation) r =
      (e : MechanismTaskExecution) × ((mechanism.execute environment operation r).0 ≡ done (ok e))
      × (e.result.success ≡ true)
  Worked (execute_current_rollback action) r =
      (e : MechanismTaskExecution) × ((mechanism.execute_current_rollback environment action r).0
        ≡ done (ok e))
      × (e.result.success ≡ true)

  -- When the call was made, the store held a started attempt of its step, and the step's state.
  abbrev pub Durable : Call S R → Type 0
  Durable call =
      (step : DeploymentStep) × (step_of call.made ≡ some step)
      × (c.started call.store id step ≡ true)
      × (c.stored call.store id ≡ some (state_during call.made step))

  -- The calls since `before`, the latest first, with those that worked.
  pub data Ran : List MechanismCall → List (Call S R) → Type 0 where
    nothing : Ran [] before
    worked :
        {made : List MechanismCall} {calls : List (Call S R)} (call : Call S R)
        → Ran made calls
        → Durable call
        → Worked call.made call.remote
        → Ran (call.made ∷ made) (call ∷ calls)
    tried :
        {made : List MechanismCall} {calls : List (Call S R)} (call : Call S R)
        → Ran made calls
        → Durable call
        → Ran made (call ∷ calls)

  abbrev pub Traced : List (Call S R) → Type 0
  Traced calls = (made : List MechanismCall) × Ran made calls
