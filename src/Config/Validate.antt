-- ===== src/Config/Validate.antt =====
-- src/config.rs: `Config::validate` and the checks it is made of. What the standard library says of a path
-- is a parameter.
pub mod Laws
use deploy_mcp.Prelude.{
  ℕ, zero, suc, String, Bool, true, false, not, ◌||◌, Option, none, some, List, [], ◌∷◌, Result, ok,
  err, length, ltb, ◌==◌, if◌then◌else◌, is_empty,
}
use deploy_mcp.Text.{is_blank, any_char}
use deploy_mcp.Error.{
  AppError, invalid_configuration_error, Arg, Message, wrapped, format, text, number, plain,
}
use deploy_mcp.Domain.Release.{kind_eq, kind_name, jar_systemd}
use deploy_mcp.Config.{Config, RuntimeConfig, EnvironmentConfig, ApplicationConfig, TaskReferences}

-- `Path::is_absolute`, whether there is a `parent()`, and whether some component is `..`.
pub record PathRules : Type 0 where
  pub is_absolute : String → Bool
  pub has_parent : String → Bool
  pub has_parent_dir : String → Bool

abbrev pub Check : Type 0
Check = Result AppError (Unit {0})

-- A sequence of checks with `?`: the first error ends it.
abbrev pub then_check : Check → Check → Check
then_check (ok u) rest = rest
then_check (err e) rest = err e

abbrev pub all_ok : List Check → Check
all_ok [] = ok tt
all_ok (check ∷ checks) = then_check check (all_ok checks)

-- A loop of checks over a list.
abbrev pub each : {A : Type 0} → (A → Check) → List A → Check
each check [] = ok tt
each check (x ∷ xs) = then_check (check x) (each check xs)

refused : List Arg → String → Check
refused args message = err (invalid_configuration_error (format message args))

-- `MAX_TIMEOUT_MS` and the limits of the checks.
abbrev pub max_timeout_ms : ℕ
max_timeout_ms = 3_600_000

abbrev pub max_attempts : ℕ
max_attempts = 10

abbrev pub max_delay_ms : ℕ
max_delay_ms = 60_000

abbrev pub max_retention_days : ℕ
max_retention_days = 3_650

abbrev pub max_batch_size : ℕ
max_batch_size = 5_000

abbrev pub max_roots : ℕ
max_roots = 32

unfoldable pub validate_reference : String → String → Check
unfolding refused
validate_reference kind value =
    if is_blank value then refused (text kind ∷ []) "{kind} must not be empty" else ok tt

unfoldable pub validate_optional_reference : String → Option String → Check
unfolding validate_reference
validate_optional_reference kind none = ok tt
validate_optional_reference kind (some value) = validate_reference kind value

unfoldable pub validate_process_value : Message → String → Check
validate_process_value kind value =
    if any_char (λ c. c == 0) value
    then err (invalid_configuration_error (wrapped "{kind} must not contain NUL" [] kind))
    else ok tt

unfoldable pub validate_timeout : String → ℕ → Check
unfolding refused
validate_timeout kind value =
    if value == 0 || ltb max_timeout_ms value
    then refused (text kind ∷ []) "{kind} must be between 1 and {MAX_TIMEOUT_MS} milliseconds"
    else ok tt

unfoldable pub validate_verification_attempts : ℕ → Check
unfolding refused
validate_verification_attempts value =
    if value == 0 || ltb max_attempts value
    then refused [] "runtime.verification_max_attempts must be between 1 and {MAX_ATTEMPTS}"
    else ok tt

unfoldable pub validate_verification_retry_delay : ℕ → Check
unfolding refused
validate_verification_retry_delay value =
    if ltb max_delay_ms value
    then refused []
        "runtime.verification_retry_delay_ms must be between 0 and {MAX_DELAY_MS} milliseconds"
    else ok tt

unfoldable pub validate_rollback_reference_retention_days : ℕ → Check
unfolding refused
validate_rollback_reference_retention_days value =
    if value == 0 || ltb max_retention_days value
    then refused []
        "runtime.rollback_reference_retention_days must be between 1 and {MAX_RETENTION_DAYS} days"
    else ok tt

unfoldable pub validate_rollback_reference_cleanup_batch_size : ℕ → Check
unfolding refused
validate_rollback_reference_cleanup_batch_size value =
    if value == 0 || ltb max_batch_size value
    then refused []
        "runtime.rollback_reference_cleanup_batch_size must be between 1 and {MAX_BATCH_SIZE}"
    else ok tt

-- The arguments of the process, with the index of each.
unfoldable pub validate_arguments : ℕ → List String → Check
unfolding validate_process_value
validate_arguments index [] = ok tt
validate_arguments index (argument ∷ arguments) =
    then_check
      (validate_process_value (format "remote_exec.args[{index}]" (number index ∷ [])) argument)
      (validate_arguments (suc index) arguments)

unfoldable pub validate_runtime : RuntimeConfig → Check
validate_runtime runtime = all_ok (
    validate_timeout "runtime.deployment_step_timeout_ms" runtime.deployment_step_timeout_ms
    ∷ validate_timeout "runtime.explicit_rollback_timeout_ms" runtime.explicit_rollback_timeout_ms
    ∷ validate_verification_attempts runtime.verification_max_attempts
    ∷ validate_verification_retry_delay runtime.verification_retry_delay_ms
    ∷ validate_rollback_reference_retention_days runtime.rollback_reference_retention_days
    ∷ validate_rollback_reference_cleanup_batch_size runtime.rollback_reference_cleanup_batch_size
    ∷ [])

module _ (paths : PathRules) where
  unfoldable pub validate_absolute_path : String → String → Check
  unfolding refused
  validate_absolute_path kind value =
      if not (paths.is_absolute value)
      then refused (text kind ∷ text value ∷ []) "{kind} must be absolute: {value}"
      else ok tt

  validate_root : String → Check
  unfolding refused
  validate_root root = then_check (validate_reference "local artifact allowed root" root) (
      if not (paths.is_absolute root)
      then refused (text root ∷ []) "local artifact allowed root must be absolute: {root}"
      else if not (paths.has_parent root)
      then refused (text root ∷ [])
          "local artifact allowed root must not be a filesystem root: {root}"
      else if paths.has_parent_dir root
      then refused (text root ∷ []) "local artifact allowed root must not contain '..': {root}"
      else ok tt)

  unfoldable pub validate_local_artifact_roots : List String → Check
  unfolding refused validate_root
  validate_local_artifact_roots roots =
      if ltb max_roots (length roots)
      then refused [] "local_artifacts.allowed_roots must contain at most {MAX_ROOTS} entries"
      else each validate_root roots

  unfoldable pub validate_tasks : TaskReferences → Check
  validate_tasks tasks = all_ok (
      validate_optional_reference "precheck task" tasks.precheck
      ∷ validate_reference "backup task" tasks.backup
      ∷ validate_reference "install task" tasks.install
      ∷ validate_reference "restart task" tasks.restart
      ∷ validate_reference "health_check task" tasks.health_check
      ∷ validate_optional_reference "rollback task" tasks.rollback
      ∷ [])

  unfoldable pub validate_mechanism : EnvironmentConfig → Check
  unfolding refused
  validate_mechanism environment =
      if not (kind_eq environment.mechanism.kind jar_systemd)
      then refused (text (kind_name environment.mechanism.kind) ∷ [])
          "deployment mechanism {} is not implemented in phase 8"
      else ok tt

  unfoldable pub validate_environment : String × EnvironmentConfig → Check
  unfolding validate_mechanism validate_tasks
  validate_environment (id, environment) = all_ok (
      validate_reference "environment id" id
      ∷ validate_mechanism environment
      ∷ validate_reference "target" environment.target
      ∷ validate_absolute_path "staging_path" environment.staging_path
      ∷ validate_absolute_path "install_path" environment.install_path
      ∷ validate_absolute_path "backup_path" environment.backup_path
      ∷ validate_tasks environment.tasks
      ∷ [])

  unfoldable pub validate_application : String × ApplicationConfig → Check
  unfolding refused
  validate_application (id, application) = then_check (validate_reference "application id" id) (
      if is_empty application.environments
      then refused (text id ∷ [])
          "application {application_id} must define at least one environment"
      else each validate_environment application.environments)

  validate_applications : List (String × ApplicationConfig) → Check
  unfolding refused
  validate_applications applications =
      if is_empty applications
      then refused [] "at least one application must be configured"
      else each validate_application applications

  -- `Config::validate`.
  unfoldable pub validate : Config → Check
  unfolding validate_applications validate_runtime validate_local_artifact_roots
      validate_application
  validate config = all_ok (
      validate_reference "remote_exec.command" config.remote_exec.command
      ∷ validate_process_value (plain "remote_exec.command") config.remote_exec.command
      ∷ validate_arguments 0 config.remote_exec.args
      ∷ validate_local_artifact_roots config.local_artifacts.allowed_roots
      ∷ validate_runtime config.runtime
      ∷ validate_applications config.applications
      ∷ [])
