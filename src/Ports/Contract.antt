-- ===== src/Ports/Contract.antt =====
-- What the services rely on of a deployment repository: each call has the effect on the durable
-- states of deployments that its result says. The SQLite repository fulfils it in
-- Persistence/Deployments/Contract.antt.
use deploy_mcp.Prelude.{String, ◌≡◌, Bool, true, Option, some, ok, err}
use deploy_mcp.Domain.State.{DeploymentState}
use deploy_mcp.Domain.Plan.{DeploymentStep}
use deploy_mcp.Domain.Release.{DeploymentId}
use deploy_mcp.Domain.Deployment.{Deployment}
use deploy_mcp.Error.{Message}
use deploy_mcp.Ports.{
  StepAttemptId, StepAttemptStatus, created, reused, RepositoryError, DeploymentRepository,
}

pub record Contract {S : Type 0} (port : DeploymentRepository S) : Type 0 where
  -- the durable state of a deployment, `none` where there is no such deployment
  pub stored : S → DeploymentId → Option DeploymentState
  -- an attempt of the step is recorded for the deployment, and has not ended
  pub started : S → DeploymentId → DeploymentStep → Bool
  pub reserve-created :
      (d : Deployment) (key : Option String) (s : S)
      → (port.reserve d key s).0 ≡ ok created
      → stored (port.reserve d key s).1 d.id ≡ some d.state
  pub reserve-reused :
      (d e : Deployment) (key : Option String) (s : S)
      → (port.reserve d key s).0 ≡ ok (reused e)
      → stored (port.reserve d key s).1 e.id ≡ some e.state
  pub persist-ok :
      (id : DeploymentId) (from to : DeploymentState) (s : S)
      → (port.persist_transition id from to s).0 ≡ ok tt
      → (stored s id ≡ some from) × (stored (port.persist_transition id from to s).1 id ≡ some to)
  pub persist-err :
      (id : DeploymentId) (from to : DeploymentState) (s : S) (e : RepositoryError)
      → (port.persist_transition id from to s).0 ≡ err e
      → stored (port.persist_transition id from to s).1 id ≡ stored s id
  pub start-ok :
      (id : DeploymentId) (step : DeploymentStep) (s : S) (attempt : StepAttemptId)
      → (port.start_step id step s).0 ≡ ok attempt
      → started (port.start_step id step s).1 id step ≡ true
  pub stored-start_step :
      (id j : DeploymentId) (step : DeploymentStep) (s : S)
      → stored (port.start_step id step s).1 j ≡ stored s j
  pub stored-finish_step :
      (attempt : StepAttemptId) (status : StepAttemptStatus) (error : Option Message)
      (j : DeploymentId) (s : S)
      → stored (port.finish_step attempt status error s).1 j ≡ stored s j
