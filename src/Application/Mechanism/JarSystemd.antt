-- ===== src/Application/Mechanism/JarSystemd.antt =====
-- src/application/mechanism.rs: `JarSystemdMechanism`, the implementation of the mechanism over the port for
-- remote execution. A task's parameters are the entries of its map.
pub mod Laws
use deploy_mcp.Prelude.{
  String, Bool, true, false, not, ◌&&◌, ◌||◌, Option, none, some, is_some, List, [], ◌∷◌, Result,
  ok, err, is_empty, str_eq, if◌then◌else◌,
}
use Prim.Native.String.{◌++◌ as append}
use deploy_mcp.Config.{EnvironmentConfig}
use deploy_mcp.Domain.Release.{DeploymentMechanismKind, jar_systemd, kind_eq}
use deploy_mcp.Domain.Plan.{DeploymentLifecycleOperation}
use deploy_mcp.Domain.Deployment.{Deployment}
use deploy_mcp.Domain.Rollback.{
  Sha256, RollbackError, empty_capability, JarSystemdRollbackSnapshot, snapshot_new,
  RollbackMechanismSnapshot, jar_systemd_snapshot, fingerprint_jar_systemd, RollbackReference,
  new_with_snapshot,
}
use deploy_mcp.Ports.{
  RemoteExecutionError, RemoteExecutionResult, RemoteTargetCheck, RemoteTransferResult,
  RemoteTaskResult, invalid_response,
}
use deploy_mcp.Application.Mechanism.{
  Timed, done, elapsed, RollbackMechanismAction, restore, activate, verify, MechanismTaskExecution,
  RemotePreflightReport, RemoteExecutionPort, DeploymentMechanismPort,
}
use deploy_mcp.Application.Mechanism.RollbackPreflight.{
  RollbackPreflightError, mechanism_mismatch, target_check, capability_discovery,
  target_unreachable, missing_capabilities,
}
use deploy_mcp.Application.Mechanism.Preflight.{
  preflight_remote_capabilities, from_list, difference,
}

-- A task with its parameters.
abbrev pub Task : Type 0
Task = String × List (String × String)

debug_name : DeploymentLifecycleOperation → String
debug_name DeploymentLifecycleOperation.validate = "Validate"
debug_name DeploymentLifecycleOperation.precheck = "Precheck"
debug_name DeploymentLifecycleOperation.prepare = "Prepare"
debug_name DeploymentLifecycleOperation.capture_rollback = "CaptureRollback"
debug_name DeploymentLifecycleOperation.apply = "Apply"
debug_name DeploymentLifecycleOperation.activate = "Activate"
debug_name DeploymentLifecycleOperation.verify = "Verify"

unfoldable pub invalid_operation : DeploymentLifecycleOperation → RemoteExecutionError
unfolding debug_name
invalid_operation operation = invalid_response "deployment_mechanism" (
    append (append "lifecycle operation " (debug_name operation))
      " is not executable as a named task")

snapshot_of_task :
    EnvironmentConfig → Option String → Result RollbackError JarSystemdRollbackSnapshot
snapshot_of_task environment none = err (empty_capability "rollback_task")
snapshot_of_task environment (some rollback_task) =
    snapshot_new environment.backup_path environment.install_path rollback_task
      environment.tasks.restart environment.tasks.health_check

unfoldable pub rollback_snapshot :
    EnvironmentConfig → Result RollbackError JarSystemdRollbackSnapshot
unfolding snapshot_of_task
rollback_snapshot environment = snapshot_of_task environment environment.tasks.rollback

module _ (sha256 : Sha256) where
  referenced :
      Deployment
      → EnvironmentConfig
      → Result RollbackError JarSystemdRollbackSnapshot
      → Result RollbackError RollbackReference
  referenced d environment (err e) = err e
  referenced d environment (ok snapshot) =
      new_with_snapshot d.id d.application d.environment jar_systemd environment.target
        (fingerprint_jar_systemd sha256 environment.target snapshot) (jar_systemd_snapshot snapshot)

  unfoldable pub build_rollback_reference :
      Deployment → EnvironmentConfig → Result RollbackError RollbackReference
  unfolding referenced
  build_rollback_reference d environment = referenced d environment (rollback_snapshot environment)

  same_contract :
      EnvironmentConfig → RollbackReference → Result RollbackError JarSystemdRollbackSnapshot → Bool
  same_contract environment reference (err e) = false
  same_contract environment reference (ok snapshot) =
      str_eq environment.target reference.target
      && str_eq (fingerprint_jar_systemd sha256 environment.target snapshot)
          reference.contract_fingerprint

  unfoldable pub rollback_contract_matches : EnvironmentConfig → RollbackReference → Bool
  unfolding same_contract
  rollback_contract_matches environment reference =
      kind_eq environment.mechanism.kind jar_systemd
      && kind_eq reference.mechanism_kind jar_systemd
      && same_contract environment reference (rollback_snapshot environment)

configured : DeploymentLifecycleOperation → Option String → RemoteExecutionResult Task
configured operation none = err (invalid_operation operation)
configured operation (some task) = ok (task, [])

-- The task of a lifecycle operation.
unfoldable pub lifecycle_task :
    EnvironmentConfig → DeploymentLifecycleOperation → RemoteExecutionResult Task
unfolding configured
lifecycle_task environment DeploymentLifecycleOperation.precheck =
    configured DeploymentLifecycleOperation.precheck environment.tasks.precheck
lifecycle_task environment DeploymentLifecycleOperation.capture_rollback = ok (
  environment.tasks.backup,
  ("install_path", environment.install_path) ∷ ("backup_path", environment.backup_path) ∷ [],
)
lifecycle_task environment DeploymentLifecycleOperation.apply = ok (
  environment.tasks.install,
  ("staging_path", environment.staging_path) ∷ ("install_path", environment.install_path) ∷ [],
)
lifecycle_task environment DeploymentLifecycleOperation.activate =
    ok (environment.tasks.restart, [])
lifecycle_task environment DeploymentLifecycleOperation.verify =
    ok (environment.tasks.health_check, [])
lifecycle_task environment DeploymentLifecycleOperation.validate =
    err (invalid_operation DeploymentLifecycleOperation.validate)
lifecycle_task environment DeploymentLifecycleOperation.prepare =
    err (invalid_operation DeploymentLifecycleOperation.prepare)

restore_task : EnvironmentConfig → Option String → RemoteExecutionResult Task
restore_task environment none =
    err (invalid_response "deployment_mechanism" "rollback action is not configured")
restore_task environment (some task) = ok (
  task,
  ("backup_path", environment.backup_path) ∷ ("install_path", environment.install_path) ∷ [],
)

-- The task of a rollback action of the environment as it is configured.
unfoldable pub current_rollback_task :
    EnvironmentConfig → RollbackMechanismAction → RemoteExecutionResult Task
unfolding restore_task
current_rollback_task environment restore = restore_task environment environment.tasks.rollback
current_rollback_task environment activate = ok (environment.tasks.restart, [])
current_rollback_task environment verify = ok (environment.tasks.health_check, [])

-- The task of a rollback action of a stored snapshot.
unfoldable pub snapshot_task : RollbackMechanismSnapshot → RollbackMechanismAction → Task
snapshot_task (jar_systemd_snapshot s) restore =
    (s.rollback_task, ("backup_path", s.backup_path) ∷ ("install_path", s.install_path) ∷ [])
snapshot_task (jar_systemd_snapshot s) activate = (s.restart_task, [])
snapshot_task (jar_systemd_snapshot s) verify = (s.health_check_task, [])

-- The tasks that an explicit rollback needs.
unfoldable pub rollback_tasks : RollbackMechanismSnapshot → List String
rollback_tasks (jar_systemd_snapshot s) =
    from_list (s.rollback_task ∷ s.restart_task ∷ s.health_check_task ∷ [])

reference_task : RollbackReference → RollbackMechanismAction → RemoteExecutionResult Task
reference_task reference action =
    if not (kind_eq reference.mechanism_kind jar_systemd)
    then err (
        invalid_response "deployment_mechanism"
          "rollback reference mechanism does not match jar_systemd")
    else ok (snapshot_task reference.mechanism_snapshot action)

module _ {R : Type 0} (port : RemoteExecutionPort R) where
  executed :
      String
      → Timed (RemoteExecutionResult RemoteTaskResult) × R
      → Timed (RemoteExecutionResult MechanismTaskExecution) × R
  executed task (elapsed, r) = (elapsed, r)
  executed task (done (err e), r) = (done (err e), r)
  executed task (done (ok result), r) = (done (ok (record { task = task; result = result })), r)

  -- `run_task` of the chosen task, or the error of the choice.
  unfoldable pub run_task :
      String
      → RemoteExecutionResult Task
      → R
      → Timed (RemoteExecutionResult MechanismTaskExecution) × R
  unfolding executed
  run_task target (err e) r = (done (err e), r)
  run_task target (ok (task, parameters)) r = executed task (port.run_task target task parameters r)

  rollback_judged :
      String
      → Option String
      → List String
      → List String
      → Result RollbackPreflightError RemotePreflightReport
  rollback_judged target identity available missing =
      if not (is_empty missing)
      then err (missing_capabilities target missing)
      else ok (record { target = target; remote_identity = identity; available_tasks = available })

  rollback_listed :
      RollbackReference
      → Option String
      → Timed (RemoteExecutionResult (List String)) × R
      → Timed (Result RollbackPreflightError RemotePreflightReport) × R
  unfolding rollback_judged
  rollback_listed reference identity (elapsed, r) = (elapsed, r)
  rollback_listed reference identity (done (err e), r) = (done (err (capability_discovery e)), r)
  rollback_listed reference identity (done (ok available), r) = (
    done (
        rollback_judged reference.target identity available
          (difference (rollback_tasks reference.mechanism_snapshot) available)),
    r,
  )

  rollback_checked :
      RollbackReference
      → Timed (RemoteExecutionResult RemoteTargetCheck) × R
      → Timed (Result RollbackPreflightError RemotePreflightReport) × R
  unfolding rollback_listed
  rollback_checked reference (elapsed, r) = (elapsed, r)
  rollback_checked reference (done (err e), r) = (done (err (target_check e)), r)
  rollback_checked reference (done (ok check), r) =
      if not check.reachable
      then (done (err (target_unreachable reference.target)), r)
      else rollback_listed reference check.remote_identity (port.list_tasks reference.target r)

  unfoldable pub preflight_rollback :
      RollbackReference → R → Timed (Result RollbackPreflightError RemotePreflightReport) × R
  unfolding rollback_checked
  preflight_rollback reference r =
      if not (kind_eq reference.mechanism_kind jar_systemd)
      then (done (err mechanism_mismatch), r)
      else rollback_checked reference (port.check_target reference.target r)

  unfoldable pub jar_systemd_mechanism : Sha256 → DeploymentMechanismPort R
  unfolding reference_task
  jar_systemd_mechanism sha256 = record {
    kind = jar_systemd;
    precheck_is_configured = λ environment. is_some environment.tasks.precheck;
    rollback_is_configured = λ environment. is_some environment.tasks.rollback;
    build_rollback_reference = build_rollback_reference sha256;
    rollback_contract_matches = rollback_contract_matches sha256;
    preflight = preflight_remote_capabilities port;
    prepare = λ environment local_path.
        port.upload_file environment.target local_path environment.staging_path true;
    execute =
        λ environment operation. run_task environment.target (lifecycle_task environment operation);
    execute_current_rollback = λ environment action.
        run_task environment.target (current_rollback_task environment action);
    preflight_rollback = preflight_rollback;
    execute_rollback =
        λ reference action. run_task reference.target (reference_task reference action);
  }
