-- ===== src/Application/Mechanism.antt =====
-- src/application/mechanism.rs: the port that turns a lifecycle operation into remote work. A call that
-- is awaited under a timeout may be cut off by it, so it gives `elapsed`, or `done` with its result. The
-- remote side is a state of its own.
pub mod RollbackPreflight
pub mod Preflight
pub mod JarSystemd
use deploy_mcp.Prelude.{String, Bool, Option, List, Result}
use deploy_mcp.Config.{EnvironmentConfig}
use deploy_mcp.Ports.{
  RemoteExecutionError, RemoteExecutionResult, RemoteTargetCheck, RemoteTransferResult,
  RemoteTaskResult,
}
use deploy_mcp.Domain.Plan.{DeploymentLifecycleOperation}
use deploy_mcp.Domain.Release.{DeploymentMechanismKind}
use deploy_mcp.Domain.Deployment.{Deployment}
use deploy_mcp.Domain.Rollback.{RollbackError, RollbackReference}
use deploy_mcp.Application.Mechanism.RollbackPreflight.{RollbackPreflightError}

pub data Timed (A : Type 0) : Type 0 where
  done : A → Timed A
  elapsed : Timed A

pub data RollbackMechanismAction : Type 0 where
  restore activate verify : RollbackMechanismAction

pub record MechanismTaskExecution : Type 0 where
  pub task : String
  pub result : RemoteTaskResult

-- src/application/preflight.rs: the report and the error of a preflight.
pub record RemotePreflightReport : Type 0 where
  pub target : String
  pub remote_identity : Option String
  pub available_tasks : List String

pub data RemotePreflightError : Type 0 where
  remote : RemoteExecutionError → RemotePreflightError
  target_unreachable : String → RemotePreflightError
  missing_capabilities : String → List String → RemotePreflightError

pub record DeploymentMechanismPort (R : Type 0) : Type 0 where
  pub kind : DeploymentMechanismKind
  pub precheck_is_configured : EnvironmentConfig → Bool
  pub rollback_is_configured : EnvironmentConfig → Bool
  pub build_rollback_reference :
      Deployment → EnvironmentConfig → Result RollbackError RollbackReference
  pub rollback_contract_matches : EnvironmentConfig → RollbackReference → Bool
  pub preflight :
      EnvironmentConfig → R → Timed (Result RemotePreflightError RemotePreflightReport) × R
  pub prepare :
      EnvironmentConfig → String → R → Timed (RemoteExecutionResult RemoteTransferResult) × R
  pub execute :
      EnvironmentConfig
      → DeploymentLifecycleOperation
      → R
      → Timed (RemoteExecutionResult MechanismTaskExecution) × R
  pub execute_current_rollback :
      EnvironmentConfig
      → RollbackMechanismAction
      → R
      → Timed (RemoteExecutionResult MechanismTaskExecution) × R
  pub preflight_rollback :
      RollbackReference → R → Timed (Result RollbackPreflightError RemotePreflightReport) × R
  pub execute_rollback :
      RollbackReference
      → RollbackMechanismAction
      → R
      → Timed (RemoteExecutionResult MechanismTaskExecution) × R

-- The trait `RemoteExecutionPort` of src/ports.rs. A task's parameters are the entries of its map.
pub record RemoteExecutionPort (R : Type 0) : Type 0 where
  pub check_target : String → R → Timed (RemoteExecutionResult RemoteTargetCheck) × R
  pub list_tasks : String → R → Timed (RemoteExecutionResult (List String)) × R
  pub upload_file :
      String → String → String → Bool → R → Timed (RemoteExecutionResult RemoteTransferResult) × R
  pub run_task :
      String
      → String
      → List (String × String)
      → R
      → Timed (RemoteExecutionResult RemoteTaskResult) × R
