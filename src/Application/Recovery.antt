-- ===== src/Application/Recovery.antt =====
-- src/application/recovery.rs: startup recovery and the acknowledgement of incidents. The services run over
-- the state of their repository.
pub mod Laws
use deploy_mcp.Prelude.{
  ℕ, Option, none, some, List, [], ◌∷◌, ◌++◌, Result, ok, err, filter, length, map_err, ◌==◌,
  if◌then◌else◌,
}
use deploy_mcp.Error.{
  AppError, app_error, invalid_request, unknown_recovery_incident, recovery_incident_conflict,
  persistence_failed, Message, format, text, number, in_state, plain,
}
use deploy_mcp.Domain.State.{DeploymentState, has_live_mutation_started}
use deploy_mcp.Domain.Deployment.{Deployment}
use deploy_mcp.Domain.Rollback.{RollbackOperation}
use deploy_mcp.Domain.Recovery.{
  RecoveryDisposition, auto_resolved, manual_reconciliation_required, RecoveryIncident,
  RecoveryAcknowledgement, RecoveryAcknowledgementRecord, RecoveryError, acknowledgement_new,
  requires_manual_reconciliation,
}
use deploy_mcp.Ports.{RepositoryError, RepositoryResult, display_repository}
use deploy_mcp.Ports
use deploy_mcp.Ports.Recovery.{RecoveryRepository}
use deploy_mcp.Application.Exec.{App, error, pure, raise, ◌>>=◌}

pub record StartupRecoveryReport : Type 0 where
  pub incidents : List RecoveryIncident

unfoldable pub manual_reconciliation_count : StartupRecoveryReport → ℕ
manual_reconciliation_count report = length (filter requires_manual_reconciliation report.incidents)

unfoldable pub deployment_recovery_reason : DeploymentState → RecoveryDisposition → Message
deployment_recovery_reason state auto_resolved =
    format
      "deploy-mcp restarted while deployment was {state:?}; no remote side-effecting deployment step had started, so the interrupted orchestration was failed without remote recovery work"
      (in_state state ∷ [])
deployment_recovery_reason state manual_reconciliation_required =
    format
      "deploy-mcp restarted while deployment was {state:?}; a remote side effect may have completed or may still be completing, remote state was not guessed, and manual reconciliation is required"
      (in_state state ∷ [])

unfoldable pub repository_error : RepositoryError → AppError
unfolding app_error
repository_error (Ports.recovery_incident_not_found id) =
    app_error unknown_recovery_incident
      (format "unknown recovery incident: {incident_id}" (number id ∷ []))
repository_error (Ports.recovery_incident_conflict m) = app_error recovery_incident_conflict m
repository_error other = app_error persistence_failed (display_repository other)

-- The disposition of an interrupted deployment in `recover`.
unfoldable pub disposition_of : DeploymentState → RecoveryDisposition
disposition_of state =
    if has_live_mutation_started state then manual_reconciliation_required else auto_resolved

-- The reason that `recover` gives for an operation.
rollback_recovery_reason : RollbackOperation → Message
rollback_recovery_reason operation =
    format
      "deploy-mcp restarted while explicit rollback {} was STARTED; remote rollback state is unknown, no remote action was guessed, and manual reconciliation is required"
      (text operation.id ∷ [])

-- `if let Some(incident) = … { incidents.push(incident); }`
abbrev pub push : Option RecoveryIncident → List RecoveryIncident → List RecoveryIncident
push none incidents = incidents
push (some i) incidents = incidents ++ i ∷ []

module _ {S : Type 0} where
  -- A call of the repository, with its error mapped.
  unfoldable pub calling : {A : Type 0} → (S → RepositoryResult A × S) → App S A
  calling operation s =
      let (r, s') = operation s in (map_err (λ e. error (repository_error e)) r, s')

  unfoldable pub reading : {A : Type 0} → (S → RepositoryResult A) → App S A
  reading operation s = (map_err (λ e. error (repository_error e)) (operation s), s)

  module _ (port : RecoveryRepository S) where
    -- The loop over the deployments, with the incidents so far.
    unfoldable pub recover_deployments :
        List Deployment → List RecoveryIncident → App S (List RecoveryIncident)
    unfolding disposition_of
    recover_deployments [] incidents = pure incidents
    recover_deployments (d ∷ ds) incidents = do
      incident ← calling (
          port.recover_deployment d (disposition_of d.state)
            (deployment_recovery_reason d.state (disposition_of d.state)))
      recover_deployments ds (push incident incidents)

    unfoldable pub recover_operations :
        List RollbackOperation → List RecoveryIncident → App S (List RecoveryIncident)
    unfolding rollback_recovery_reason
    recover_operations [] incidents = pure incidents
    recover_operations (operation ∷ operations) incidents = do
      incident ←
          calling (port.recover_rollback_operation operation (rollback_recovery_reason operation))
      recover_operations operations (push incident incidents)

    unfoldable pub recover : App S StartupRecoveryReport
    recover = do
      deployments ← reading port.interrupted_deployments
      incidents ← recover_deployments deployments []
      operations ← reading port.started_rollback_operations
      incidents ← recover_operations operations incidents
      pure (record { incidents = incidents })

    unfoldable pub unresolved_incidents : App S (List RecoveryIncident)
    unresolved_incidents = reading port.unresolved_incidents

    accepted : Result RecoveryError RecoveryAcknowledgement → App S RecoveryAcknowledgementRecord
    accepted (err e) = raise (app_error invalid_request (plain "{error}"))
    accepted (ok a) = calling (port.acknowledge_incident a)

    -- `acknowledge`; the request has the fields of the acknowledgement.
    unfoldable pub acknowledge : RecoveryAcknowledgement → App S RecoveryAcknowledgementRecord
    unfolding accepted
    acknowledge request = accepted (acknowledgement_new request)

    unfoldable pub acknowledgement : ℕ → App S (Option RecoveryAcknowledgementRecord)
    acknowledgement incident_id =
        if incident_id == 0
        then raise
            (app_error invalid_request (plain "recovery incident id must be greater than zero"))
        else reading (port.acknowledgement incident_id)
