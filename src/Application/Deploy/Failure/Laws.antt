-- ===== src/Application/Deploy/Failure/Laws.antt =====
-- What the verdict on a remote result says: no failure where the call worked, and else one of its step.
use deploy_mcp.Prelude.{ℕ, String, ◌≡◌, refl, true, Option, none, some, Result, ok, err, arith}
use deploy_mcp.Error.{ErrorCode}
use deploy_mcp.Domain.Plan.{DeploymentStep}
use deploy_mcp.Ports.{RemoteExecutionResult, RemoteExecutionError, RemoteTransferResult}
use deploy_mcp.Application.Mechanism.{
  Timed, done, elapsed, MechanismTaskExecution, RemotePreflightError, RemotePreflightReport,
}
use deploy_mcp.Application.Deploy.Failure.{
  DeploymentFailure, failure_new, from_remote, deployment_timeout_failure, preflight_failure,
  task_result_failure, preflight_verdict, upload_verdict, task_verdict,
}

-- The verdict has no failure, or one of the step.
abbrev pub Of : DeploymentStep → Option DeploymentFailure → Type 0
Of step v = (f : DeploymentFailure) → v ≡ some f → f.step ≡ step

from_remote-step :
    (step : DeploymentStep) (code : ErrorCode) (action : String) (e : RemoteExecutionError)
    → (from_remote step code action e).step ≡ step
unfolding from_remote failure_new
from_remote-step step code action e = ground arith

pub preflight_verdict-Of :
    (timeout_ms : ℕ) (r : Timed (Result RemotePreflightError RemotePreflightReport))
    → Of DeploymentStep.precheck (preflight_verdict timeout_ms r)
unfolding preflight_verdict preflight_failure deployment_timeout_failure failure_new from_remote
preflight_verdict-Of timeout_ms r f h = ground arith

pub preflight_verdict-none :
    (timeout_ms : ℕ) (r : Timed (Result RemotePreflightError RemotePreflightReport))
    → preflight_verdict timeout_ms r ≡ none
    → (report : RemotePreflightReport) × (r ≡ done (ok report))
unfolding preflight_verdict
preflight_verdict-none timeout_ms (done (ok report)) h = (report, refl)
preflight_verdict-none timeout_ms (done (err e)) h = cc
preflight_verdict-none timeout_ms elapsed h = cc

pub upload_verdict-Of :
    (timeout_ms expected : ℕ) (r : Timed (RemoteExecutionResult RemoteTransferResult))
    → Of DeploymentStep.stage_artifact (upload_verdict timeout_ms expected r)
unfolding upload_verdict deployment_timeout_failure failure_new from_remote
upload_verdict-Of timeout_ms expected r f h = ground arith

pub upload_verdict-none :
    (timeout_ms expected : ℕ) (r : Timed (RemoteExecutionResult RemoteTransferResult))
    → upload_verdict timeout_ms expected r ≡ none
    → (result : RemoteTransferResult) × (r ≡ done (ok result))
unfolding upload_verdict
upload_verdict-none timeout_ms expected (done (ok result)) h = (result, refl)
upload_verdict-none timeout_ms expected (done (err e)) h = cc
upload_verdict-none timeout_ms expected elapsed h = cc

module _ (timeout_ms : ℕ) (step : DeploymentStep) (code : ErrorCode) (action : String) where
  pub task_verdict-Of :
      (r : Timed (RemoteExecutionResult MechanismTaskExecution))
      → Of step (task_verdict timeout_ms step code action r)
  unfolding task_verdict deployment_timeout_failure failure_new task_result_failure from_remote
  task_verdict-Of r f h = ground arith

  pub task_verdict-none :
      (r : Timed (RemoteExecutionResult MechanismTaskExecution))
      → task_verdict timeout_ms step code action r ≡ none
      → (e : MechanismTaskExecution) × (r ≡ done (ok e)) × (e.result.success ≡ true)
  unfolding task_verdict
  task_verdict-none (done (ok e)) h = (e, refl, ground arith)
  task_verdict-none (done (err e)) h = cc
  task_verdict-none elapsed h = cc
