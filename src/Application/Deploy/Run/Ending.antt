-- ===== src/Application/Deploy/Run/Ending.antt =====
-- The ways in which the run of a reserved deployment can end.
use deploy_mcp.Prelude.{String, List, [], ◌∷◌, Bool, ◌≡◌, true, false, ◌&&◌, none, some}
use deploy_mcp.Config.{EnvironmentConfig}
use deploy_mcp.Error.{is_operation_timed_out}
use deploy_mcp.Domain.State.{
  succeeded, failed, rolling_back, rolled_back, rollback_failed, has_live_mutation_started,
}
use deploy_mcp.Domain.Release.{DeploymentId}
use deploy_mcp.Domain.Plan.{DeploymentStep, DeploymentLifecycleOperation}
use deploy_mcp.Domain.Plan.Boundary.{state_of_step}
use deploy_mcp.Ports.{DeploymentRepository}
use deploy_mcp.Ports.Contract.{Contract}
use deploy_mcp.Application.Mechanism.{DeploymentMechanismPort}
use deploy_mcp.Application.Deploy.Failure.{DeploymentFailure, DeploymentOutcome}
use deploy_mcp.Application.Deploy.Attempt.{Call, MechanismCall, preflight, prepare, execute}
use deploy_mcp.Application.Deploy.Attempt.Trace.{Ran, Traced, rollback_calls}

-- The calls before the staging, the latest first.
abbrev pub checking_calls : Bool → List MechanismCall
checking_calls true = execute DeploymentLifecycleOperation.precheck ∷ preflight ∷ []
checking_calls false = preflight ∷ []

-- The calls of a deployment that succeeds, the latest first.
abbrev pub deployment_calls : Bool → List MechanismCall
deployment_calls prechecked =
    execute DeploymentLifecycleOperation.verify
    ∷ execute DeploymentLifecycleOperation.activate
    ∷ execute DeploymentLifecycleOperation.apply
    ∷ execute DeploymentLifecycleOperation.capture_rollback
    ∷ prepare
    ∷ checking_calls prechecked

-- A timeout leaves it unknown whether the step's side effect completed, where the step has one.
abbrev pub is_unknown : DeploymentFailure → Bool
is_unknown f = is_operation_timed_out f.code && has_live_mutation_started (state_of_step f.step)

module _ {S R : Type 0} (port : DeploymentRepository S) (c : Contract port) (id : DeploymentId)
    (mechanism : DeploymentMechanismPort R) (environment : EnvironmentConfig) (path : String)
    (before : List (Call S R)) (rolls : DeploymentStep → Bool) where
  -- The ways in which a deployment can end for its caller, with the calls that were made; `rolls` tells the
  -- steps whose failure requires a rollback.
  pub data Ending (o : DeploymentOutcome) (calls : List (Call S R)) : Type 0 where
    -- every call of the deployment worked, and there is no failure
    success :
        o.deployment.state ≡ succeeded
        → o.failure ≡ none
        → o.rollback_failure ≡ none
        → Ran port c id mechanism environment path before
            (deployment_calls (mechanism.precheck_is_configured environment))
            calls
        → Ending o calls
    -- a failure that leaves nothing unknown and requires no rollback
    recorded :
        (f : DeploymentFailure)
        → o.deployment.state ≡ failed
        → o.failure ≡ some f
        → o.rollback_failure ≡ none
        → is_unknown f ≡ false
        → rolls f.step ≡ false
        → Traced port c id mechanism environment path before calls
        → Ending o calls
    -- a failure that leaves nothing unknown and requires a rollback, whose calls all worked
    restored :
        (f : DeploymentFailure) (made : List MechanismCall)
        → o.deployment.state ≡ rolled_back
        → o.failure ≡ some f
        → o.rollback_failure ≡ none
        → is_unknown f ≡ false
        → rolls f.step ≡ true
        → mechanism.rollback_is_configured environment ≡ true
        → Ran port c id mechanism environment path before (rollback_calls made) calls
        → Ending o calls
    -- such a failure, and the rollback failed for a reason other than a timeout
    not_restored :
        (f g : DeploymentFailure)
        → o.deployment.state ≡ rollback_failed
        → o.failure ≡ some f
        → o.rollback_failure ≡ some g
        → is_unknown f ≡ false
        → rolls f.step ≡ true
        → is_operation_timed_out g.code ≡ false
        → Traced port c id mechanism environment path before calls
        → Ending o calls
    -- a timeout that leaves a side effect unknown: the deployment stays in the state of the step
    cut_off :
        (f : DeploymentFailure)
        → o.deployment.state ≡ state_of_step f.step
        → o.failure ≡ some f
        → o.rollback_failure ≡ none
        → is_unknown f ≡ true
        → Traced port c id mechanism environment path before calls
        → Ending o calls
    -- a timeout in the rollback: not ended
    rollback_cut_off :
        (f g : DeploymentFailure)
        → o.deployment.state ≡ rolling_back
        → o.failure ≡ some f
        → o.rollback_failure ≡ some g
        → is_unknown f ≡ false
        → rolls f.step ≡ true
        → is_operation_timed_out g.code ≡ true
        → Traced port c id mechanism environment path before calls
        → Ending o calls
