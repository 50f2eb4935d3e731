-- ===== src/Application/Deploy/Run/Settled.antt =====
-- How a reserved deployment ends: what the outcome says and what the store holds agree, on every branch.
use deploy_mcp.Prelude.{String, List, ◌∷◌, ◌≡◌, Option}
use deploy_mcp.Config.{Config, EnvironmentConfig}
use deploy_mcp.Domain.State.{DeploymentState}
use deploy_mcp.Domain.Release.{DeploymentId}
use deploy_mcp.Domain.Plan.{DeploymentPlan, DeploymentStep, DeploymentLifecycleOperation}
use deploy_mcp.Domain.Deployment.{Deployment}
use deploy_mcp.Ports.{DeploymentRepository}
use deploy_mcp.Ports.Contract.{Contract}
use deploy_mcp.Application.Mechanism.{DeploymentMechanismPort}
use deploy_mcp.Application.Exec.{App}
use deploy_mcp.Application.Deploy.Failure.{DeploymentFailure, DeploymentOutcome}
use deploy_mcp.Application.Deploy.Attempt.{World, Call, MechanismCall, prepare, execute}
use deploy_mcp.Application.Deploy.Run.Ending.{Ending, checking_calls}
use deploy_mcp.Application.Deploy.Run.Phase
use deploy_mcp.Application.Deploy.Run.Steps
use deploy_mcp.Application.Deploy.Run.Recovering

module _ {S R : Type 0} (port : DeploymentRepository S) (c : Contract port) (id : DeploymentId)
    (mechanism : DeploymentMechanismPort R) (environment : EnvironmentConfig) (path : String)
    (before : List (Call S R)) (plan : DeploymentPlan) where
  abbrev Since : List MechanismCall → List (Call S R) → Type 0
  Since = Phase.Since port c id mechanism environment path before plan

  abbrev Halts : World S R → Type 0
  Halts = Phase.Halts port c id mechanism environment path before plan

  abbrev Holds : DeploymentState → (List (Call S R) → Type 0) → World S R → Type 0
  Holds = Phase.Holds port c id mechanism environment path before plan

  abbrev Settles :
      DeploymentState → (List (Call S R) → Type 0) → App (World S R) DeploymentOutcome → Type 0
  Settles = Phase.Settles port c id mechanism environment path before plan

  abbrev Attempts :
      DeploymentState
      → List MechanismCall
      → MechanismCall
      → DeploymentStep
      → App (World S R) (Option DeploymentFailure)
      → Type 0
  Attempts = Phase.Attempts port c id mechanism environment path before plan

  module _ (config : Config) where
    -- The calls up to each phase.
    abbrev checked : List MechanismCall
    checked = checking_calls (mechanism.precheck_is_configured environment)

    abbrev staged : List MechanismCall
    staged = prepare ∷ checked

    abbrev backed_up : List MechanismCall
    backed_up = execute DeploymentLifecycleOperation.capture_rollback ∷ staged

    abbrev installed : List MechanismCall
    installed = execute DeploymentLifecycleOperation.apply ∷ backed_up

    abbrev restarted : List MechanismCall
    restarted = execute DeploymentLifecycleOperation.activate ∷ installed

    -- A phase of the run: it begins in the state with these calls made.
    abbrev Runs :
        DeploymentState
        → List MechanismCall
        → (Deployment → App (World S R) DeploymentOutcome)
        → Type 0
    Runs s made m = (d : Deployment) → d.id ≡ id → d.state ≡ s → Settles s (Since made) (m d)
