-- ===== src/Config.antt =====
-- src/config.rs: the configuration's records and the lookup of an environment. A map is the list of
-- its entries.
pub mod Validate
use deploy_mcp.Prelude.{ℕ, String, Option, none, some, List, [], ◌∷◌, Result, ok, err, lookup}
use deploy_mcp.Error.{AppError, app_error, unknown_application, unknown_environment, format, text}
use deploy_mcp.Domain.Release.{DeploymentMechanismKind}

pub record RemoteExecConfig : Type 0 where
  pub command : String
  pub args : List String

pub record LocalArtifactConfig : Type 0 where
  pub allowed_roots : List String

pub record RuntimeConfig : Type 0 where
  pub deployment_step_timeout_ms : ℕ  -- u64
  pub explicit_rollback_timeout_ms : ℕ  -- u64
  pub verification_max_attempts : ℕ  -- u32
  pub verification_retry_delay_ms : ℕ  -- u64
  pub rollback_reference_retention_days : ℕ  -- u32
  pub rollback_reference_cleanup_batch_size : ℕ  -- u32

pub record TaskReferences : Type 0 where
  pub precheck : Option String
  pub backup : String
  pub install : String
  pub restart : String
  pub health_check : String
  pub rollback : Option String

pub record MechanismConfig : Type 0 where
  pub kind : DeploymentMechanismKind

pub record EnvironmentConfig : Type 0 where
  pub mechanism : MechanismConfig
  pub target : String
  pub staging_path : String
  pub install_path : String
  pub backup_path : String
  pub tasks : TaskReferences

pub data ArtifactType : Type 0 where
  jar : ArtifactType

pub record ApplicationConfig : Type 0 where
  pub display_name : Option String
  pub artifact_type : ArtifactType
  pub environments : List (String × EnvironmentConfig)

pub record Config : Type 0 where
  pub remote_exec : RemoteExecConfig
  pub local_artifacts : LocalArtifactConfig
  pub runtime : RuntimeConfig
  pub applications : List (String × ApplicationConfig)

found_application : String → Option ApplicationConfig → Result AppError ApplicationConfig
found_application name (some application) = ok application
found_application name none =
    err
      (app_error unknown_application (format "unknown application: {application}" (text name ∷ [])))

unfoldable pub application : Config → String → Result AppError ApplicationConfig
unfolding found_application
application config name = found_application name (lookup name config.applications)

found_environment : String → String → Option EnvironmentConfig → Result AppError EnvironmentConfig
found_environment application name (some environment) = ok environment
found_environment application name none = err (
    app_error unknown_environment (
      format "unknown environment {environment} for application {application}"
        (text name ∷ text application ∷ [])))

-- `Config::environment`.
environment_of :
    String → String → Result AppError ApplicationConfig → Result AppError EnvironmentConfig
unfolding found_environment
environment_of application name (ok a) =
    found_environment application name (lookup name a.environments)
environment_of application name (err e) = err e

unfoldable pub environment : Config → String → String → Result AppError EnvironmentConfig
unfolding environment_of application
environment config application_name name =
    environment_of application_name name (application config application_name)
