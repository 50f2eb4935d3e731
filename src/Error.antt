-- ===== src/Error.antt =====
-- error.rs: the machine-readable codes and the application's error. The text of a message is kept as
-- its format string with the values that it is formatted with, and is never rendered.
use deploy_mcp.Prelude.{
  ℕ, String, ◌≡◌, refl, Bool, true, false, Option, some, List, [], str_eq, if◌then◌else◌,
}
use deploy_mcp.Prelude.{none, ℤ}
use deploy_mcp.Domain.State.{DeploymentState}
use deploy_mcp.Domain.Plan.{DeploymentStep}

pub data ErrorCode : Type 0 where
  invalid_configuration invalid_request unknown_application unknown_environment : ErrorCode
  unknown_deployment unknown_recovery_incident invalid_version invalid_artifact : ErrorCode
  artifact_not_found artifact_changed artifact_path_not_allowed idempotency_conflict : ErrorCode
  artifact_version_conflict conflicting_deployment precheck_failed remote_capability_missing :
      ErrorCode
  remote_execution_failed operation_timed_out verification_failed rollback_unavailable : ErrorCode
  rollback_failed recovery_incident_conflict invalid_state_transition persistence_failed : ErrorCode

unfoldable pub as_str : ErrorCode → String
as_str invalid_configuration = "invalid_configuration"
as_str invalid_request = "invalid_request"
as_str unknown_application = "unknown_application"
as_str unknown_environment = "unknown_environment"
as_str unknown_deployment = "unknown_deployment"
as_str unknown_recovery_incident = "unknown_recovery_incident"
as_str invalid_version = "invalid_version"
as_str invalid_artifact = "invalid_artifact"
as_str artifact_not_found = "artifact_not_found"
as_str artifact_changed = "artifact_changed"
as_str artifact_path_not_allowed = "artifact_path_not_allowed"
as_str idempotency_conflict = "idempotency_conflict"
as_str artifact_version_conflict = "artifact_version_conflict"
as_str conflicting_deployment = "conflicting_deployment"
as_str precheck_failed = "precheck_failed"
as_str remote_capability_missing = "remote_capability_missing"
as_str remote_execution_failed = "remote_execution_failed"
as_str operation_timed_out = "operation_timed_out"
as_str verification_failed = "verification_failed"
as_str rollback_unavailable = "rollback_unavailable"
as_str rollback_failed = "rollback_failed"
as_str recovery_incident_conflict = "recovery_incident_conflict"
as_str invalid_state_transition = "invalid_state_transition"
as_str persistence_failed = "persistence_failed"

-- The code that a machine-readable name stands for.
abbrev of_name : String → Option ErrorCode
of_name s =
    if str_eq s "invalid_configuration"
    then some invalid_configuration
    else if str_eq s "invalid_request"
    then some invalid_request
    else if str_eq s "unknown_application"
    then some unknown_application
    else if str_eq s "unknown_environment"
    then some unknown_environment
    else if str_eq s "unknown_deployment"
    then some unknown_deployment
    else if str_eq s "unknown_recovery_incident"
    then some unknown_recovery_incident
    else if str_eq s "invalid_version"
    then some invalid_version
    else if str_eq s "invalid_artifact"
    then some invalid_artifact
    else if str_eq s "artifact_not_found"
    then some artifact_not_found
    else if str_eq s "artifact_changed"
    then some artifact_changed
    else if str_eq s "artifact_path_not_allowed"
    then some artifact_path_not_allowed
    else if str_eq s "idempotency_conflict"
    then some idempotency_conflict
    else if str_eq s "artifact_version_conflict"
    then some artifact_version_conflict
    else if str_eq s "conflicting_deployment"
    then some conflicting_deployment
    else if str_eq s "precheck_failed"
    then some precheck_failed
    else if str_eq s "remote_capability_missing"
    then some remote_capability_missing
    else if str_eq s "remote_execution_failed"
    then some remote_execution_failed
    else if str_eq s "operation_timed_out"
    then some operation_timed_out
    else if str_eq s "verification_failed"
    then some verification_failed
    else if str_eq s "rollback_unavailable"
    then some rollback_unavailable
    else if str_eq s "rollback_failed"
    then some rollback_failed
    else if str_eq s "recovery_incident_conflict"
    then some recovery_incident_conflict
    else if str_eq s "invalid_state_transition"
    then some invalid_state_transition
    else if str_eq s "persistence_failed"
    then some persistence_failed
    else none

of_name-as_str : (c : ErrorCode) → of_name (as_str c) ≡ some c
unfolding as_str
of_name-as_str invalid_configuration = refl
of_name-as_str invalid_request = refl
of_name-as_str unknown_application = refl
of_name-as_str unknown_environment = refl
of_name-as_str unknown_deployment = refl
of_name-as_str unknown_recovery_incident = refl
of_name-as_str invalid_version = refl
of_name-as_str invalid_artifact = refl
of_name-as_str artifact_not_found = refl
of_name-as_str artifact_changed = refl
of_name-as_str artifact_path_not_allowed = refl
of_name-as_str idempotency_conflict = refl
of_name-as_str artifact_version_conflict = refl
of_name-as_str conflicting_deployment = refl
of_name-as_str precheck_failed = refl
of_name-as_str remote_capability_missing = refl
of_name-as_str remote_execution_failed = refl
of_name-as_str operation_timed_out = refl
of_name-as_str verification_failed = refl
of_name-as_str rollback_unavailable = refl
of_name-as_str rollback_failed = refl
of_name-as_str recovery_incident_conflict = refl
of_name-as_str invalid_state_transition = refl
of_name-as_str persistence_failed = refl

-- Two error codes with the same machine-readable name are the same code.
pub as_str-injective : (c d : ErrorCode) → as_str c ≡ as_str d → c ≡ d
as_str-injective c d h = cc (of_name-as_str c, of_name-as_str d)

-- `code == ErrorCode::OperationTimedOut`.
unfoldable pub is_operation_timed_out : ErrorCode → Bool
is_operation_timed_out operation_timed_out = true
is_operation_timed_out _ = false

-- A value that a message is formatted with. Debug prints are not rendered.
pub data Arg : Type 0 where
  text : String → Arg
  number : ℕ → Arg
  texts : List String → Arg
  coded : ErrorCode → Arg
  in_state : DeploymentState → Arg
  at_step : DeploymentStep → Arg
  exited : Option ℤ → Arg

pub data Message : Type 0 where
  -- `format!(template, args...)`
  format : String → List Arg → Message
  -- a message with a message as its last value
  wrapped : String → List Arg → Message → Message

pub record AppError : Type 0 where
  pub code : ErrorCode
  pub message : Message

-- `AppError::new`.
unfoldable pub app_error : ErrorCode → Message → AppError
app_error code message = record { code = code; message = message }

unfoldable pub invalid_configuration_error : Message → AppError
unfolding app_error
invalid_configuration_error message = app_error invalid_configuration message

-- A message without values.
abbrev pub plain : String → Message
plain template = format template []
