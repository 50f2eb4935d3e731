-- ===== src/Application/Deploy/Request/Outcomes.antt =====
-- What `deploy` leaves behind, on every branch.
use deploy_mcp.Prelude.{String, ◌≡◌, Bool, true, false, ◌&&◌, some, List, ok, ◌⊎◌}
use deploy_mcp.Config
use deploy_mcp.Config.{Config, EnvironmentConfig}
use deploy_mcp.Domain.State.{DeploymentState, has_live_artifact_replacement_started}
use deploy_mcp.Domain.State
use deploy_mcp.Domain.Release.{Artifact}
use deploy_mcp.Domain.Plan.{DeploymentStep}
use deploy_mcp.Domain.Plan.Boundary.{state_of_step}
use deploy_mcp.Domain.Deployment.{Deployment}
use deploy_mcp.Ports.{DeploymentRepository, DeploymentReservation, created, reused}
use deploy_mcp.Ports.Contract.{Contract}
use deploy_mcp.Application.Mechanism.{DeploymentMechanismPort}
use deploy_mcp.Application.Artifact.{FileSystem, Digest, resolve_allowed_artifact_path}
use deploy_mcp.Application.Deploy.Failure.{DeploymentOutcome}
use deploy_mcp.Application.Deploy.Attempt.{World, Call, repository}
use deploy_mcp.Application.Deploy.Attempt.Rules.{Halted}
use deploy_mcp.Application.Deploy.Run.Ending.{Ending}
use deploy_mcp.Application.Deploy.Request.{DeployRequest}

module _ {S R : Type 0} (port : DeploymentRepository S) (c : Contract port)
    (mechanism : DeploymentMechanismPort R) (config : Config) (fs : FileSystem) (digest : Digest)
    (uuid : String) (request : DeployRequest) (before : List (Call S R)) where
  -- The environment and the artifact that a run is for: the configured one, and the accepted path.
  abbrev pub For : EnvironmentConfig → String → Type 0
  For environment path =
      (Config.environment config request.application request.environment ≡ ok environment)
      × (resolve_allowed_artifact_path fs config.local_artifacts request.artifact_path ≡ ok path)

  -- A failed step requires a rollback where one is configured and a live artifact may have been replaced.
  abbrev pub rolls_back : EnvironmentConfig → DeploymentStep → Bool
  rolls_back environment step =
      mechanism.rollback_is_configured environment
      && has_live_artifact_replacement_started (state_of_step step)

  -- The outcome of the new deployment: it has ended as its failures and its calls say.
  abbrev pub Ended : DeploymentOutcome → World S R → Type 0
  Ended o w =
      (o.deployment.id ≡ uuid)
      × (o.idempotent_replay ≡ false)
      × (environment : EnvironmentConfig) × (path : String) × For environment path
      × Ending port c uuid mechanism environment path before (rolls_back environment) o w.calls

  -- An outcome is that of a stored deployment: a replayed one, without any call of the mechanism, or the
  -- new one.
  abbrev pub Agrees : DeploymentOutcome → World S R → Type 0
  Agrees o w =
      (c.stored w.repository o.deployment.id ≡ some o.deployment.state)
      × (((o.idempotent_replay ≡ true) × (w.calls ≡ before)) ⊎ Ended o w)

  -- A run that stopped.
  abbrev pub StoppedRun : World S R → Type 0
  StoppedRun w =
      (environment : EnvironmentConfig) × (path : String) × For environment path
      × Halted port c uuid mechanism environment path before w

  -- An error either made no call of the mechanism, or left the new deployment open in the store.
  abbrev pub Refused : World S R → Type 0
  Refused w = (w.calls ≡ before) ⊎ StoppedRun w

  abbrev Untouched : World S R → Type 0
  Untouched w = w.calls ≡ before

  abbrev ReservedAs : Deployment → DeploymentReservation → World S R → Type 0
  ReservedAs d created w = (c.stored w.repository d.id ≡ some d.state) × Untouched w
  ReservedAs d (reused e) w = (c.stored w.repository e.id ≡ some e.state) × Untouched w
