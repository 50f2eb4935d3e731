-- ===== src/Application/Deploy/Request.antt =====
-- src/application/deploy.rs: `deploy`: the checks of a request, its reservation and its run, under the
-- lease of its application and environment.
pub mod Outcomes
use deploy_mcp.Prelude.{
  ℕ, String, Bool, true, false, not, ◌&&◌, ◌||◌, Option, none, some, List, [], ◌∷◌, Result, ok, err,
  any, ltb, str_eq, if◌then◌else◌,
}
use Prim.Native.String.{len}
use deploy_mcp.Text.{is_blank, trim, any_char, is_control}
use deploy_mcp.Config
use deploy_mcp.Config.{Config, EnvironmentConfig}
use deploy_mcp.Error.{
  AppError, app_error, invalid_configuration_error, invalid_version, invalid_request,
  invalid_state_transition, Message, wrapped, format, text, plain,
}
use deploy_mcp.Domain.Release.{
  DeploymentError, ReleaseIdentity, local_file, Artifact, id_new, kind_eq, kind_name,
  DeploymentMechanismKind,
}
use deploy_mcp.Domain.Plan.{DeploymentPlan, generic}
use deploy_mcp.Domain.Deployment.{Deployment, new_with_release}
use deploy_mcp.Ports.{DeploymentRepository, DeploymentReservation, created, reused}
use deploy_mcp.Application.Lock.{Key, try_acquire, release}
use deploy_mcp.Application.Mechanism.{DeploymentMechanismPort}
use deploy_mcp.Application.Artifact.{
  FileSystem, Digest, resolve_allowed_artifact_path, load_artifact,
}
use deploy_mcp.Application.Exec.{App, Stop, error, pure, raise, lift, ◌>>=◌, ◌>>◌}
use deploy_mcp.Application.Deploy.Failure.{DeploymentOutcome, conflict_error, display_deployment}
use deploy_mcp.Application.Deploy.Attempt.{World, repository}
use deploy_mcp.Application.Deploy.Run.{outcome, run}

pub record DeployRequest : Type 0 where
  pub application : String
  pub environment : String
  pub version : String
  pub artifact_path : String
  pub idempotency_key : Option String

unfoldable pub validate_idempotency_key : Option String → Result AppError (Unit {0})
validate_idempotency_key none = ok tt
validate_idempotency_key (some key) =
    if str_eq key "" || ltb 128 (len key)
    then err
        (app_error invalid_request (plain "idempotency_key must contain between 1 and 128 bytes"))
    else if not (str_eq (trim key) key) || any_char is_control key
    then err (
        app_error invalid_request (
          plain
            "idempotency_key must not contain leading/trailing whitespace or control characters"))
    else ok tt

-- `map_err` with a message that ends in the error.
named : (Message → AppError) → String → Result DeploymentError String → Result AppError String
named code template (ok id) = ok id
named code template (err e) = err (code (wrapped template [] (display_deployment e)))

planned : Result DeploymentError DeploymentPlan → Result AppError DeploymentPlan
planned (ok plan) = ok plan
planned (err e) = err (
    app_error invalid_state_transition
      (wrapped "invalid deployment plan: {error}" [] (display_deployment e)))

-- The first identifier or artifact that is refused gives the error.
assembled :
    DeploymentMechanismKind
    → Result AppError Artifact
    → Result AppError String
    → Result AppError String
    → Result AppError String
    → Result AppError Deployment
assembled kind (err e) id application environment = err e
assembled kind (ok a) (err e) application environment = err e
assembled kind (ok a) (ok id) (err e) environment = err e
assembled kind (ok a) (ok id) (ok application) (err e) = err e
assembled kind (ok a) (ok id) (ok application) (ok environment) =
    ok (new_with_release id application environment kind (local_file a))

-- What `deploy` does while it holds the lease of a key.
leased : {S R A : Type 0} → Key → App (World S R) A → Option (List Key) → App (World S R) A
leased key m none w = raise (conflict_error key.0 key.1) w
leased key m (some active) w =
    let (r, w') = m (record w { active = active }) in
    (r, record w' { active = release key w'.active })

unfoldable pub with_lease : {S R A : Type 0} → Key → App (World S R) A → App (World S R) A
unfolding leased
with_lease key m w = leased key m (try_acquire key w.active) w

module _ {S R : Type 0} (port : DeploymentRepository S) (mechanism : DeploymentMechanismPort R)
    (config : Config) (fs : FileSystem) (digest : Digest) where
  -- Some stored deployment of the application and environment is not terminal.
  conflicts : String → String → List Deployment → Bool
  conflicts application environment active =
      any (λ d. str_eq d.application application && str_eq d.environment environment) active

  reject_durable_conflict : String → String → App (World S R) (Unit {0})
  reject_durable_conflict application environment = do
    active ← repository (λ s. (port.list_non_terminal s, s))
    (if conflicts application environment active
        then raise (conflict_error application environment)
        else pure tt)

  -- The new deployment of a request, with a fresh id.
  build : DeployRequest → String → String → Result AppError Deployment
  build request uuid path =
      assembled mechanism.kind (load_artifact fs digest request.version path)
        (named (app_error invalid_state_transition) "failed to create deployment id: {error}"
          (id_new "DeploymentId" uuid))
        (named invalid_configuration_error "invalid configured application id: {error}"
          (id_new "ApplicationId" request.application))
        (named invalid_configuration_error "invalid configured environment id: {error}"
          (id_new "EnvironmentId" request.environment))

  reserved :
      EnvironmentConfig
      → String
      → Deployment
      → DeploymentReservation
      → App (World S R) DeploymentOutcome
  reserved environment path d (reused existing) = pure (outcome existing none none true)
  reserved environment path d created = do
    plan ← lift (
        planned (
          generic d.id environment.target mechanism.kind d.release_identity
            (mechanism.rollback_is_configured environment)))
    run port mechanism config plan environment path d

  deploy_leased : DeployRequest → EnvironmentConfig → String → App (World S R) DeploymentOutcome
  deploy_leased request environment uuid = do
    reject_durable_conflict request.application request.environment
    path ← lift (resolve_allowed_artifact_path fs config.local_artifacts request.artifact_path)
    d ← lift (build request uuid path)
    reservation ← repository (port.reserve d request.idempotency_key)
    reserved environment path d reservation

  deploy_in : DeployRequest → String → EnvironmentConfig → App (World S R) DeploymentOutcome
  deploy_in request uuid environment =
      if not (kind_eq environment.mechanism.kind mechanism.kind)
      then raise (
          invalid_configuration_error (
            format "configured mechanism {} does not match application mechanism {}"
              (text (kind_name environment.mechanism.kind) ∷ text (kind_name mechanism.kind) ∷ [])))
      else with_lease (request.application, request.environment)
          (deploy_leased request environment uuid)

  -- `deploy`, with the fresh identifier that `Uuid::new_v4` gives.
  pub deploy : DeployRequest → String → App (World S R) DeploymentOutcome
  deploy request uuid =
      if is_blank request.version
      then raise (app_error invalid_version (plain "version must not be empty"))
      else (do
        lift (validate_idempotency_key request.idempotency_key)
        environment ← lift (Config.environment config request.application request.environment)
        deploy_in request uuid environment)
