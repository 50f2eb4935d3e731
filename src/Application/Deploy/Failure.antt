-- ===== src/Application/Deploy/Failure.antt =====
-- src/application/deploy.rs: failures, how each kind of remote result becomes one, and outcomes.
pub mod Laws
use deploy_mcp.Prelude.{
  ℕ, String, Bool, not, Option, none, some, [], ◌∷◌, Result, ok, err, ◌==◌, if◌then◌else◌,
}
use deploy_mcp.Text.{trim, is_blank}
use deploy_mcp.Error.{
  ErrorCode, artifact_changed, operation_timed_out, precheck_failed, remote_capability_missing,
  remote_execution_failed, conflicting_deployment, idempotency_conflict, artifact_version_conflict,
  persistence_failed, AppError, app_error, Message, format, wrapped, text, number, texts, coded,
  at_step, exited, in_state, plain,
}
use deploy_mcp.Domain.Release.{
  DeploymentError, invalid_identifier, invalid_artifact_version, invalid_artifact_size,
  invalid_artifact_checksum, invalid_container_repository, invalid_container_digest,
  invalid_transition, invalid_plan_target,
}
use deploy_mcp.Domain.Plan.{DeploymentStep}
use deploy_mcp.Domain.Deployment.{Deployment}
use deploy_mcp.Ports.{
  RemoteExecutionError, RemoteExecutionResult, RemoteTaskResult, RemoteTransferResult,
  RepositoryError, display_remote, display_repository,
}
use deploy_mcp.Ports
use deploy_mcp.Application.Mechanism.{
  Timed, done, elapsed, MechanismTaskExecution, RemotePreflightError, RemotePreflightReport,
  missing_capabilities, target_unreachable,
}
use deploy_mcp.Application.Mechanism

pub record DeploymentFailure : Type 0 where
  pub step : DeploymentStep
  pub code : ErrorCode
  pub message : Message
  pub remote_code : Option String

-- `DeploymentFailure::new`.
unfoldable pub failure_new : DeploymentStep → ErrorCode → Message → DeploymentFailure
failure_new step code message = record {
  step = step;
  code = code;
  message = message;
  remote_code = none;
}

unfoldable pub from_remote :
    DeploymentStep → ErrorCode → String → RemoteExecutionError → DeploymentFailure
unfolding failure_new
from_remote step code action (Ports.remote remote_code message) = record {
  step = step;
  code = code;
  message = format "{action}: {message}" (text action ∷ text message ∷ []);
  remote_code = some remote_code;
}
from_remote step code action (Ports.transport m) =
    failure_new step code
      (wrapped "{action}: {other}" (text action ∷ []) (display_remote (Ports.transport m)))
from_remote step code action (Ports.invalid_response tool m) = failure_new step code (
    wrapped "{action}: {other}" (text action ∷ []) (display_remote (Ports.invalid_response tool m)))

with_remote_code : ErrorCode → Message → Option String → Message
with_remote_code code message (some remote_code) =
    wrapped "{}: {} (remote_code={remote_code})" (coded code ∷ text remote_code ∷ []) message
with_remote_code code message none = wrapped "{}: {}" (coded code ∷ []) message

unfoldable pub persisted_message : DeploymentFailure → Message
unfolding with_remote_code
persisted_message failure = with_remote_code failure.code failure.message failure.remote_code

pub record DeploymentOutcome : Type 0 where
  pub deployment : Deployment
  pub failure : Option DeploymentFailure
  pub rollback_failure : Option DeploymentFailure
  pub idempotent_replay : Bool

unfoldable pub deployment_timeout_failure : DeploymentStep → ℕ → DeploymentFailure
unfolding failure_new
deployment_timeout_failure step timeout_ms = failure_new step operation_timed_out (
    format "deployment step {step:?} exceeded {timeout_ms} ms; remote completion is unknown"
      (at_step step ∷ number timeout_ms ∷ []))

unfoldable pub preflight_failure : RemotePreflightError → DeploymentFailure
unfolding failure_new from_remote
preflight_failure (missing_capabilities target tasks) =
    failure_new DeploymentStep.precheck remote_capability_missing
      (format "target {target} is missing capabilities: {tasks:?}" (text target ∷ texts tasks ∷ []))
preflight_failure (target_unreachable target) =
    failure_new DeploymentStep.precheck precheck_failed
      (format "target is not reachable: {target}" (text target ∷ []))
preflight_failure (Mechanism.remote e) =
    from_remote DeploymentStep.precheck precheck_failed "remote capability preflight failed" e

task_detail : RemoteTaskResult → String
task_detail result =
    if not (is_blank result.stderr)
    then trim result.stderr
    else if not (is_blank result.stdout)
    then trim result.stdout
    else "no remote output"

unfoldable pub task_result_failure :
    DeploymentStep → ErrorCode → String → String → RemoteTaskResult → DeploymentFailure
unfolding failure_new task_detail
task_result_failure step code action task result = failure_new step code (
    format "{action}: task={task}, exit_code={:?}, detail={detail}"
      (text action ∷ text task ∷ exited result.exit_code ∷ text (task_detail result) ∷ []))

-- The `match result` of `execute_capability_preflight`.
unfoldable pub preflight_verdict :
    ℕ → Timed (Result RemotePreflightError RemotePreflightReport) → Option DeploymentFailure
unfolding preflight_failure deployment_timeout_failure
preflight_verdict timeout_ms (done (ok report)) = none
preflight_verdict timeout_ms (done (err e)) = some (preflight_failure e)
preflight_verdict timeout_ms elapsed =
    some (deployment_timeout_failure DeploymentStep.precheck timeout_ms)

-- The `match result` of `execute_upload`.
unfoldable pub upload_verdict :
    ℕ → ℕ → Timed (RemoteExecutionResult RemoteTransferResult) → Option DeploymentFailure
unfolding deployment_timeout_failure failure_new from_remote
upload_verdict timeout_ms expected_bytes elapsed =
    some (deployment_timeout_failure DeploymentStep.stage_artifact timeout_ms)
upload_verdict timeout_ms expected_bytes (done (ok result)) =
    if result.bytes_transferred == expected_bytes
    then none
    else some (
        failure_new DeploymentStep.stage_artifact artifact_changed (
          format "staged byte count changed: expected {expected_bytes}, transferred {}"
            (number expected_bytes ∷ number result.bytes_transferred ∷ [])))
upload_verdict timeout_ms expected_bytes (done (err e)) =
    some (
      from_remote DeploymentStep.stage_artifact remote_execution_failed "artifact staging failed" e)

-- The `match result` of `execute_mechanism_task` and of `execute_current_rollback_task`.
unfoldable pub task_verdict :
    ℕ
    → DeploymentStep
    → ErrorCode
    → String
    → Timed (RemoteExecutionResult MechanismTaskExecution)
    → Option DeploymentFailure
unfolding deployment_timeout_failure task_result_failure from_remote
task_verdict timeout_ms step code action elapsed = some (deployment_timeout_failure step timeout_ms)
task_verdict timeout_ms step code action (done (ok execution)) =
    if execution.result.success
    then none
    else some (task_result_failure step code action execution.task execution.result)
task_verdict timeout_ms step code action (done (err e)) = some (from_remote step code action e)

unfoldable pub repository_error : RepositoryError → AppError
unfolding app_error
repository_error (Ports.already_exists id) =
    app_error conflicting_deployment
      (format "another active mutation already exists for this application/environment" [])
repository_error (Ports.mutation_conflict application environment) =
    app_error conflicting_deployment
      (format "another active mutation already exists for this application/environment" [])
repository_error (Ports.idempotency_conflict key) = app_error idempotency_conflict (
    format "idempotency key is already bound to a different deployment intent: {key}"
      (text key ∷ []))
repository_error
      (Ports.artifact_version_conflict application environment version existing requested) =
    app_error artifact_version_conflict (
      format
        "version {version} for {application}/{environment} is already bound to checksum {existing_sha256}; requested checksum is {requested_sha256}"
        (text version ∷ text application ∷ text environment ∷ text existing ∷ text requested ∷ []))
repository_error other = app_error persistence_failed (display_repository other)

unfoldable pub conflict_error : String → String → AppError
unfolding app_error
conflict_error application environment = app_error conflicting_deployment (
    format "deployment already active for {application}/{environment}"
      (text application ∷ text environment ∷ []))

-- `Display` of `DeploymentError`.
unfoldable pub display_deployment : DeploymentError → Message
display_deployment (invalid_identifier kind) = format "invalid identifier: {0}" (text kind ∷ [])
display_deployment invalid_artifact_version = plain "artifact version must not be empty"
display_deployment invalid_artifact_size = plain "artifact size must be greater than zero"
display_deployment invalid_artifact_checksum =
    plain "artifact sha256 must contain exactly 64 hexadecimal characters"
display_deployment invalid_container_repository =
    plain "container image repository must not be empty"
display_deployment invalid_container_digest =
    plain "container image digest must be immutable sha256:<64-hex>"
display_deployment (invalid_transition from to) =
    format "invalid deployment transition: {from:?} -> {to:?}" (in_state from ∷ in_state to ∷ [])
display_deployment invalid_plan_target = plain "deployment plan target must not be empty"
