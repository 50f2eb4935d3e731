-- ===== src/Application/Rollback/Failure.antt =====
-- src/application/rollback.rs: failures, outcomes and the errors of the repositories.
use deploy_mcp.Prelude.{String, not, Option, none, some, [], ◌∷◌, Result, ok, err, if◌then◌else◌}
use deploy_mcp.Text.{trim, is_blank}
use deploy_mcp.Error.{
  ErrorCode, conflicting_deployment, precheck_failed, remote_capability_missing,
  rollback_unavailable, rollback_failed, persistence_failed, AppError, app_error, Message, format,
  wrapped, text, texts, coded, exited, plain,
}
use deploy_mcp.Domain.Rollback.{RollbackOperation}
use deploy_mcp.Ports.{
  RemoteExecutionError, RemoteExecutionResult, RemoteTaskResult, RepositoryError, display_remote,
  display_repository,
}
use deploy_mcp.Ports
use deploy_mcp.Application.Mechanism.{MechanismTaskExecution, RemotePreflightReport}
use deploy_mcp.Application.Mechanism.RollbackPreflight.{
  RollbackPreflightError, mechanism_mismatch, target_check, capability_discovery,
  target_unreachable, missing_capabilities,
}

pub record RollbackFailure : Type 0 where
  pub code : ErrorCode
  pub message : Message
  pub remote_code : Option String

pub record RollbackOutcome : Type 0 where
  pub operation : RollbackOperation
  pub failure : Option RollbackFailure

-- `RollbackFailure::new`.
unfoldable pub failure_new : ErrorCode → Message → RollbackFailure
failure_new code message = record { code = code; message = message; remote_code = none }

unfoldable pub from_remote : ErrorCode → String → RemoteExecutionError → RollbackFailure
unfolding failure_new
from_remote code action (Ports.remote remote_code message) = record {
  code = code;
  message = format "{action}: {message}" (text action ∷ text message ∷ []);
  remote_code = some remote_code;
}
from_remote code action (Ports.transport m) =
    failure_new code
      (wrapped "{action}: {other}" (text action ∷ []) (display_remote (Ports.transport m)))
from_remote code action (Ports.invalid_response tool m) = failure_new code (
    wrapped "{action}: {other}" (text action ∷ []) (display_remote (Ports.invalid_response tool m)))

with_remote_code : ErrorCode → Message → Option String → Message
with_remote_code code message (some remote_code) =
    wrapped "{}: {} (remote_code={remote_code})" (coded code ∷ text remote_code ∷ []) message
with_remote_code code message none = wrapped "{}: {}" (coded code ∷ []) message

unfoldable pub persisted_message : RollbackFailure → Message
unfolding with_remote_code
persisted_message failure = with_remote_code failure.code failure.message failure.remote_code

task_detail : RemoteTaskResult → String
task_detail result =
    if not (is_blank result.stderr)
    then trim result.stderr
    else if not (is_blank result.stdout)
    then trim result.stdout
    else "no remote output"

unfoldable pub task_failure : String → String → RemoteTaskResult → RollbackFailure
unfolding task_detail
task_failure action task result = failure_new rollback_failed (
    format "{action}: task={task}, exit_code={:?}, detail={detail}"
      (text action ∷ text task ∷ exited result.exit_code ∷ text (task_detail result) ∷ []))

unfoldable pub repository_error : RepositoryError → AppError
unfolding app_error
repository_error (Ports.rollback_unavailable m) = app_error rollback_unavailable m
repository_error (Ports.mutation_conflict application environment) =
    app_error conflicting_deployment (
      format "mutation already active for {application}/{environment}"
        (text application ∷ text environment ∷ []))
repository_error other = app_error persistence_failed (display_repository other)

-- The `match` of `preflight`.
unfoldable pub preflight_verdict :
    Result RollbackPreflightError RemotePreflightReport → Option RollbackFailure
unfolding failure_new from_remote
preflight_verdict (ok report) = none
preflight_verdict (err mechanism_mismatch) = some (
    failure_new rollback_unavailable
      (plain "rollback reference mechanism does not match the configured mechanism"))
preflight_verdict (err (target_unreachable target)) = some (
    failure_new precheck_failed
      (format "rollback target is not reachable: {target}" (text target ∷ [])))
preflight_verdict (err (missing_capabilities target tasks)) = some (
    failure_new remote_capability_missing
      (format "rollback target is missing capabilities: {tasks:?}" (texts tasks ∷ [])))
preflight_verdict (err (target_check e)) =
    some (from_remote precheck_failed "rollback target preflight failed" e)
preflight_verdict (err (capability_discovery e)) =
    some (from_remote precheck_failed "rollback capability preflight failed" e)

-- The `match` of `run_task`.
unfoldable pub task_verdict :
    String → RemoteExecutionResult MechanismTaskExecution → Option RollbackFailure
unfolding task_failure from_remote
task_verdict action (ok execution) =
    if execution.result.success
    then none
    else some (task_failure action execution.task execution.result)
task_verdict action (err e) = some (from_remote rollback_failed action e)
