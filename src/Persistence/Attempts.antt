-- ===== src/Persistence/Attempts.antt =====
-- src/persistence.rs: `start_step`, `finish_step` and `step_attempts`.
pub mod Laws
use deploy_mcp.Prelude.{
  ℕ, suc, ◌+◌, ◌^◌, Bool, true, false, not, ◌&&◌, ◌||◌, Option, none, some, List, [], ◌∷◌, ◌++◌, ok,
  err, any, filter, str_eq, ltb, ◌==◌, if◌then◌else◌, is_some,
}
use deploy_mcp.Error.{Message}
use deploy_mcp.Domain.Plan.{DeploymentStep}
use deploy_mcp.Domain.Release.{DeploymentId}
use deploy_mcp.Ports.{
  StepAttemptStatus, StepAttemptId, StepAttemptRecord, RepositoryResult, not_found,
  invalid_step_attempt_completion,
}
use deploy_mcp.Persistence.Names.{step_name, parse_step, status_name, parse_status}
use deploy_mcp.Persistence.Schema.{
  AttemptRow, Database, Connection, transaction, query, deployment_row,
}
use deploy_mcp.Persistence.Insert.{◌>>=◌, ◌>>◌}

start_body :
    DeploymentId → DeploymentStep → ℕ → Database → RepositoryResult (StepAttemptId × Database)
start_body id step now db =
    if is_some (deployment_row id db)
    then ok (
      suc db.attempt_sequence,
      record db {
        attempts =
            db.attempts
            ++ record {
              id = suc db.attempt_sequence;
              deployment_id = id;
              step = step_name step;
              status = "started";
              error = none;
              started_at_unix_ms = now;
              finished_at_unix_ms = none;
            }
              ∷ [];
        attempt_sequence = suc db.attempt_sequence;
      },
    )
    else err (not_found id)

pub start_step :
    DeploymentId → DeploymentStep → Connection → RepositoryResult StepAttemptId × Connection
start_step id step = transaction (start_body id step)

-- A completion names its error exactly when it failed.
completes : StepAttemptStatus → Option Message → Bool
completes StepAttemptStatus.succeeded none = true
completes StepAttemptStatus.failed (some m) = true
completes _ _ = false

is_open_attempt : StepAttemptId → AttemptRow → Bool
is_open_attempt attempt row = row.id == attempt && str_eq row.status "started"

finish_attempts :
    StepAttemptId → StepAttemptStatus → Option Message → ℕ → List AttemptRow → List AttemptRow
unfolding is_open_attempt
finish_attempts attempt status error now [] = []
finish_attempts attempt status error now (row ∷ rows) =
    (if is_open_attempt attempt row
      then record row { status = status_name status; error = error; finished_at_unix_ms = some now }
      else row)
    ∷ finish_attempts attempt status error now rows

finish_body :
    StepAttemptId
    → StepAttemptStatus
    → Option Message
    → ℕ
    → Database
    → RepositoryResult ((Unit {0}) × Database)
finish_body attempt status error now db =
    if not (completes status error) || not (ltb attempt (2 ^ 63))
    then err invalid_step_attempt_completion
    else if any (is_open_attempt attempt) db.attempts
    then ok (tt, record db { attempts = finish_attempts attempt status error now db.attempts })
    else err invalid_step_attempt_completion

pub finish_step :
    StepAttemptId
    → StepAttemptStatus
    → Option Message
    → Connection
    → RepositoryResult (Unit {0}) × Connection
finish_step attempt status error = transaction (finish_body attempt status error)

decode_attempts : List AttemptRow → RepositoryResult (List StepAttemptRecord)
decode_attempts [] = ok []
decode_attempts (row ∷ rows) = do
  step ← parse_step row.step
  status ← parse_status row.status
  rest ← decode_attempts rows
  ok (
      record {
        id = row.id;
        step = step;
        status = status;
        error = row.error;
        started_at_unix_ms = row.started_at_unix_ms;
        finished_at_unix_ms = row.finished_at_unix_ms;
      }
      ∷ rest)

pub step_attempts : DeploymentId → Connection → RepositoryResult (List StepAttemptRecord)
step_attempts id =
    query (λ db.
      decode_attempts (filter (λ (row : AttemptRow). str_eq row.deployment_id id) db.attempts))
