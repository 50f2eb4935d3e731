-- ===== src/Persistence/Names.antt =====
-- src/persistence.rs: the texts that the database stores for states, steps and statuses.
use deploy_mcp.Prelude.{String, ◌≡◌, refl, Bool, ◌||◌, [], ◌∷◌, ok, err, str_eq, if◌then◌else◌}
use deploy_mcp.Error.{format, text}
use deploy_mcp.Domain.State.{
  DeploymentState, created, prechecking, staging_artifact, backing_up, installing, restarting,
  verifying, succeeded, failed, rolling_back, rolled_back, rollback_failed, is_terminal,
}
use deploy_mcp.Domain.Plan.{DeploymentStep}
use deploy_mcp.Ports.{StepAttemptStatus, RepositoryResult, corrupt_data}

unfoldable pub state_name : DeploymentState → String
state_name created = "created"
state_name prechecking = "prechecking"
state_name staging_artifact = "staging_artifact"
state_name backing_up = "backing_up"
state_name installing = "installing"
state_name restarting = "restarting"
state_name verifying = "verifying"
state_name succeeded = "succeeded"
state_name failed = "failed"
state_name rolling_back = "rolling_back"
state_name rolled_back = "rolled_back"
state_name rollback_failed = "rollback_failed"

unfoldable pub parse_state : String → RepositoryResult DeploymentState
parse_state value =
    if str_eq value "created"
    then ok created
    else if str_eq value "prechecking"
    then ok prechecking
    else if str_eq value "staging_artifact"
    then ok staging_artifact
    else if str_eq value "backing_up"
    then ok backing_up
    else if str_eq value "installing"
    then ok installing
    else if str_eq value "restarting"
    then ok restarting
    else if str_eq value "verifying"
    then ok verifying
    else if str_eq value "succeeded"
    then ok succeeded
    else if str_eq value "failed"
    then ok failed
    else if str_eq value "rolling_back"
    then ok rolling_back
    else if str_eq value "rolled_back"
    then ok rolled_back
    else if str_eq value "rollback_failed"
    then ok rollback_failed
    else err (corrupt_data (format "unknown deployment state: {other}" (text value ∷ [])))

unfoldable pub step_name : DeploymentStep → String
step_name DeploymentStep.precheck = "precheck"
step_name DeploymentStep.stage_artifact = "stage_artifact"
step_name DeploymentStep.backup_current = "backup_current"
step_name DeploymentStep.install = "install"
step_name DeploymentStep.restart = "restart"
step_name DeploymentStep.verify = "verify"

unfoldable pub parse_step : String → RepositoryResult DeploymentStep
parse_step value =
    if str_eq value "precheck"
    then ok DeploymentStep.precheck
    else if str_eq value "stage_artifact"
    then ok DeploymentStep.stage_artifact
    else if str_eq value "backup_current"
    then ok DeploymentStep.backup_current
    else if str_eq value "install"
    then ok DeploymentStep.install
    else if str_eq value "restart"
    then ok DeploymentStep.restart
    else if str_eq value "verify"
    then ok DeploymentStep.verify
    else err (corrupt_data (format "unknown deployment step: {other}" (text value ∷ [])))

unfoldable pub status_name : StepAttemptStatus → String
status_name StepAttemptStatus.started = "started"
status_name StepAttemptStatus.succeeded = "succeeded"
status_name StepAttemptStatus.failed = "failed"

unfoldable pub parse_status : String → RepositoryResult StepAttemptStatus
parse_status value =
    if str_eq value "started"
    then ok StepAttemptStatus.started
    else if str_eq value "succeeded"
    then ok StepAttemptStatus.succeeded
    else if str_eq value "failed"
    then ok StepAttemptStatus.failed
    else err (corrupt_data (format "unknown step-attempt status: {other}" (text value ∷ [])))

-- `state IN ('succeeded', 'failed', 'rolled_back', 'rollback_failed')`.
unfoldable pub is_terminal_name : String → Bool
is_terminal_name value =
    str_eq value "succeeded"
    || str_eq value "failed"
    || str_eq value "rolled_back"
    || str_eq value "rollback_failed"

-- Every state is read back from its stored text.
pub parse_state-state_name : (s : DeploymentState) → parse_state (state_name s) ≡ ok s
unfolding parse_state state_name
parse_state-state_name created = refl
parse_state-state_name prechecking = refl
parse_state-state_name staging_artifact = refl
parse_state-state_name backing_up = refl
parse_state-state_name installing = refl
parse_state-state_name restarting = refl
parse_state-state_name verifying = refl
parse_state-state_name succeeded = refl
parse_state-state_name failed = refl
parse_state-state_name rolling_back = refl
parse_state-state_name rolled_back = refl
parse_state-state_name rollback_failed = refl

pub parse_step-step_name : (s : DeploymentStep) → parse_step (step_name s) ≡ ok s
unfolding parse_step step_name
parse_step-step_name DeploymentStep.precheck = refl
parse_step-step_name DeploymentStep.stage_artifact = refl
parse_step-step_name DeploymentStep.backup_current = refl
parse_step-step_name DeploymentStep.install = refl
parse_step-step_name DeploymentStep.restart = refl
parse_step-step_name DeploymentStep.verify = refl

pub parse_status-status_name : (s : StepAttemptStatus) → parse_status (status_name s) ≡ ok s
unfolding parse_status status_name
parse_status-status_name StepAttemptStatus.started = refl
parse_status-status_name StepAttemptStatus.succeeded = refl
parse_status-status_name StepAttemptStatus.failed = refl

-- The list of terminal states in the SQL and in the migrations is that of `is_terminal`.
pub is_terminal_name-state_name :
    (s : DeploymentState) → is_terminal_name (state_name s) ≡ is_terminal s
unfolding is_terminal_name state_name is_terminal
is_terminal_name-state_name created = refl
is_terminal_name-state_name prechecking = refl
is_terminal_name-state_name staging_artifact = refl
is_terminal_name-state_name backing_up = refl
is_terminal_name-state_name installing = refl
is_terminal_name-state_name restarting = refl
is_terminal_name-state_name verifying = refl
is_terminal_name-state_name succeeded = refl
is_terminal_name-state_name failed = refl
is_terminal_name-state_name rolling_back = refl
is_terminal_name-state_name rolled_back = refl
is_terminal_name-state_name rollback_failed = refl
