-- ===== src/Ports.antt =====
-- src/ports.rs: the values that pass through the ports, the errors of the repositories and of remote
-- execution, and the port of the deployment repository.
pub mod Contract
pub mod Rollback
pub mod Recovery
use deploy_mcp.Prelude.{ℕ, String, Bool, Option, some, none, List, [], ◌∷◌, ℤ, Result}
use deploy_mcp.Error.{Message, format, wrapped, text, number, in_state}
use deploy_mcp.Domain.State.{DeploymentState}
use deploy_mcp.Domain.Plan.{DeploymentStep}
use deploy_mcp.Domain.Release.{DeploymentId}
use deploy_mcp.Domain.Deployment.{Deployment}

pub record RemoteTargetCheck : Type 0 where
  pub reachable : Bool
  pub remote_identity : Option String

pub record RemoteTransferResult : Type 0 where
  pub bytes_transferred : ℕ  -- u64

pub record RemoteTaskResult : Type 0 where
  pub success : Bool
  pub exit_code : Option ℤ  -- i32
  pub stdout : String
  pub stderr : String
  pub duration_ms : ℕ  -- u128
  pub stdout_truncated : Bool
  pub stderr_truncated : Bool

pub data RemoteExecutionError : Type 0 where
  transport : String → RemoteExecutionError
  remote : String → String → RemoteExecutionError
  invalid_response : String → String → RemoteExecutionError

abbrev pub RemoteExecutionResult : Type 0 → Type 0
RemoteExecutionResult A = Result RemoteExecutionError A

-- The Display text of a remote error.
unfoldable pub display_remote : RemoteExecutionError → Message
display_remote (transport m) = format "remote-exec transport/protocol error: {0}" (text m ∷ [])
display_remote (remote code m) =
    format "remote-exec error {code}: {message}" (text code ∷ text m ∷ [])
display_remote (invalid_response tool m) =
    format "invalid response from remote-exec tool {tool}: {message}" (text tool ∷ text m ∷ [])

-- `StepAttemptId`: a u64.
abbrev pub StepAttemptId : Type 0
StepAttemptId = ℕ

pub data StepAttemptStatus : Type 0 where
  started succeeded failed : StepAttemptStatus

pub record DeploymentTransition : Type 0 where
  pub from : DeploymentState
  pub to : DeploymentState
  pub occurred_at_unix_ms : ℕ

pub record StepAttemptRecord : Type 0 where
  pub id : StepAttemptId
  pub step : DeploymentStep
  pub status : StepAttemptStatus
  pub error : Option Message
  pub started_at_unix_ms : ℕ
  pub finished_at_unix_ms : Option ℕ

pub data DeploymentReservation : Type 0 where
  created : DeploymentReservation
  reused : Deployment → DeploymentReservation

pub data RepositoryError : Type 0 where
  storage : Message → RepositoryError
  already_exists not_found : String → RepositoryError
  state_conflict : String → DeploymentState → RepositoryError
  idempotency_conflict : String → RepositoryError
  artifact_version_conflict : String → String → String → String → String → RepositoryError
  rollback_unavailable : Message → RepositoryError
  mutation_conflict : String → String → RepositoryError
  rollback_operation_conflict : String → RepositoryError
  recovery_incident_not_found : ℕ → RepositoryError
  recovery_incident_conflict corrupt_data : Message → RepositoryError
  invalid_step_attempt_completion : RepositoryError

abbrev pub RepositoryResult : Type 0 → Type 0
RepositoryResult A = Result RepositoryError A

-- The Display text of a repository error.
unfoldable pub display_repository : RepositoryError → Message
display_repository (storage m) = wrapped "repository storage error: {0}" [] m
display_repository (already_exists id) = format "deployment already exists: {0}" (text id ∷ [])
display_repository (not_found id) = format "deployment not found: {0}" (text id ∷ [])
display_repository (state_conflict id expected) =
    format "deployment state conflict for {deployment_id}: expected {expected:?}"
      (text id ∷ in_state expected ∷ [])
display_repository (idempotency_conflict key) =
    format "idempotency key conflict: {0}" (text key ∷ [])
display_repository (artifact_version_conflict application environment version existing requested) =
    format
      "artifact version conflict for {application}/{environment} version {version}: existing={existing_sha256}, requested={requested_sha256}"
      (text application ∷ text environment ∷ text version ∷ text existing ∷ text requested ∷ [])
display_repository (rollback_unavailable m) = wrapped "rollback is unavailable: {0}" [] m
display_repository (mutation_conflict application environment) =
    format "another mutation is active for {application}/{environment}"
      (text application ∷ text environment ∷ [])
display_repository (rollback_operation_conflict id) =
    format "rollback operation state conflict: {0}" (text id ∷ [])
display_repository (recovery_incident_not_found id) =
    format "recovery incident not found: {0}" (number id ∷ [])
display_repository (recovery_incident_conflict m) = wrapped "recovery incident conflict: {0}" [] m
display_repository (corrupt_data m) = wrapped "corrupt repository data: {0}" [] m
display_repository invalid_step_attempt_completion = format "invalid step-attempt completion" []

-- The trait `DeploymentRepository`, over the repository's own state: a method that takes `&mut self`
-- returns the new state, one that takes `&self` only reads.
-- `list`, a query of the API, is left out.
pub record DeploymentRepository (S : Type 0) : Type 0 where
  pub create : Deployment → S → RepositoryResult (Unit {0}) × S
  pub reserve : Deployment → Option String → S → RepositoryResult DeploymentReservation × S
  pub get : DeploymentId → S → RepositoryResult (Option Deployment)
  pub list_non_terminal : S → RepositoryResult (List Deployment)
  pub persist_transition :
      DeploymentId → DeploymentState → DeploymentState → S → RepositoryResult (Unit {0}) × S
  pub transitions : DeploymentId → S → RepositoryResult (List DeploymentTransition)
  pub start_step : DeploymentId → DeploymentStep → S → RepositoryResult StepAttemptId × S
  pub finish_step :
      StepAttemptId → StepAttemptStatus → Option Message → S → RepositoryResult (Unit {0}) × S
  pub step_attempts : DeploymentId → S → RepositoryResult (List StepAttemptRecord)
