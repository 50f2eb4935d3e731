-- ===== src/Scenarios/Recovery.antt =====
-- The theorems on recovery, on rollback operations and on retention at concrete inputs.
use deploy_mcp.Persistence.Recovery.Queries
use deploy_mcp.Persistence.Recovery.Acknowledged.Readback.{acknowledge_incident-acknowledgement}
use deploy_mcp.Application.Recovery.{recover}
use deploy_mcp.Application.Recovery.Laws.{recover-none_started}
use deploy_mcp.Persistence.Recovery.Repository.{sqlite_recovery}
use deploy_mcp.Persistence.Recovery.Queries.Laws.{is_started}
use deploy_mcp.Application.Exec.{◌>>=◌}
use deploy_mcp.Prelude.{ok, some, any, false, arith, ◌≡◌, refl, none, List, [], ◌∷◌, pos}
use deploy_mcp.Error.{plain}
use deploy_mcp.Text.{all_chars}
use deploy_mcp.Domain.State
use deploy_mcp.Domain.State.{is_terminal, can_transition_to}
use deploy_mcp.Persistence.Names.{state_name}
use deploy_mcp.Persistence.Order.{order_by}
use deploy_mcp.Persistence.Recovery.Names.{decode_incident}
use deploy_mcp.Domain.Deployment.{Deployment}
use deploy_mcp.Domain.Rollback.{Sha256, RollbackOperation}
use deploy_mcp.Domain.Rollback
use deploy_mcp.Domain.Recovery.{
  manual_reconciliation_required, RecoveryAcknowledgement, is_manual, deployment, subject_kind_eq,
}
use deploy_mcp.Persistence.Schema.{
  Connection, DeploymentRow, IncidentRow, ReferenceRow, transaction, deployment_row,
}
use deploy_mcp.Persistence.Reserve.{reserve}
use deploy_mcp.Persistence.Rollback.Decode.{SnapshotCodec}
use deploy_mcp.Persistence.Rollback.Operations.{begin_operation}
use deploy_mcp.Persistence.Rollback.Retention.{
  prune_inactive_reference_snapshots, selected, order_by_update, is_prunable, is_inactive,
  not_after, is_retained, blank_references,
}
use deploy_mcp.Persistence.Rollback.Retention.Laws.{
  Pruned, prune_inactive_reference_snapshots-Pruned,
}
use deploy_mcp.Persistence.Recovery.{recover_deployment, acknowledge_incident, incident_violation}
use deploy_mcp.Persistence.Recovery.Acknowledged.{Acknowledges, acknowledge_incident-Acknowledges}
use deploy_mcp.Persistence.Guarded.{Guarded}
use deploy_mcp.Persistence.Guarded.History.{
  Call, reserving, moving, recovering, beginning, acknowledging, is_allowed, after_calls,
  after_calls-Guarded,
}
use deploy_mcp.Persistence.Guarded.Blocked.{recover_deployment-blocks}
use deploy_mcp.Persistence.Deployments.{sqlite}
use deploy_mcp.Persistence.Rollback.Retention.Laws.{Marks}
use deploy_mcp.Persistence.Rollback.Repository.{sqlite_rollbacks, sqlite_retention}
use deploy_mcp.Persistence.Rollback.Contract.{sqlite_rollback_contract}
use deploy_mcp.Application.Retention.{
  RollbackRetentionService, cleanup_at, retention_ms, saturating_sub,
}
use deploy_mcp.Application.Retention.Laws.{is_expired, cleanup_at-is_expired}
use deploy_mcp.Application.Rollback.Service.{World, rollback}
use deploy_mcp.Application.Rollback.Service.Laws.{Sound, rollback-Sound}
use deploy_mcp.Scenarios.{codec, config, mechanism, connection, database, first, first_row}

abbrev sha256 : Sha256
sha256 = record { hex_digest = λ bytes. "digest"; utf8 = λ s. [] }

abbrev snapshots : SnapshotCodec
snapshots = record { to_json = λ s. "snapshot"; from_json = λ t. none }

-- A deployment that was cut off while it backed up.
abbrev interrupted : Deployment
interrupted = record first { state = State.backing_up }

abbrev interrupted_row : DeploymentRow
interrupted_row = record first_row { state = "backing_up" }

abbrev operation : RollbackOperation
operation = record {
  id = "r-1";
  source_deployment_id = "d-1";
  application = "shop";
  environment = "staging";
  state = Rollback.started;
}

abbrev acknowledgement : RecoveryAcknowledgement
acknowledgement = record {
  incident_id = 1;
  application = "shop";
  environment = "staging";
  subject_kind = deployment;
  subject_id = "d-1";
  operator = "ops";
  evidence = "inspected the host";
}

-- A deployment that is cut off, recovered and acknowledged, and the next one.
abbrev outage : List Call
outage =
    reserving first none
    ∷ moving "d-1" State.created State.prechecking
    ∷ recovering (record first { state = State.prechecking }) manual_reconciliation_required
        (plain "restarted")
    ∷ beginning operation
    ∷ acknowledging acknowledgement
    ∷ reserving (record first { id = "d-2" }) none
    ∷ []

after_calls-Guarded_example :
    Guarded (after_calls codec sha256 snapshots outage (connection [])).database
unfolding is_allowed can_transition_to
after_calls-Guarded_example =
    after_calls-Guarded codec sha256 snapshots outage (connection []) refl (tt, tt, tt)

recover_deployment-blocks_example :
    let after =
      (recover_deployment interrupted manual_reconciliation_required
        (plain "restarted")
        (connection (interrupted_row ∷ []))).1 in
    ((reserve codec (record first { id = "d-2" }) none after).1.database ≡ after.database)
    × ((begin_operation sha256 snapshots operation after).1.database ≡ after.database)
unfolding recover_deployment is_terminal transaction deployment_row state_name incident_violation
    is_manual
recover_deployment-blocks_example =
    recover_deployment-blocks interrupted manual_reconciliation_required (plain "restarted")
      (connection (interrupted_row ∷ [])) _ codec (record first { id = "d-2" }) none sha256
      snapshots operation refl refl (refl, refl) (refl, refl)

abbrev incident_row : IncidentRow
incident_row = record {
  id = 1;
  subject_kind = "deployment";
  subject_id = "d-1";
  application_id = "shop";
  environment_id = "staging";
  previous_state = "backing_up";
  disposition = "manual_reconciliation_required";
  reason = plain "restarted";
  created_at_unix_ms = 1700000000000;
  resolved_at_unix_ms = none;
}

abbrev blocked : Connection
blocked = record {
  database = record (database []) { recovery_incidents = incident_row ∷ [] };
  now = 1700000000001;
  faults = [];
}

acknowledge_incident-Acknowledges_example :
    Acknowledges acknowledgement blocked.database
      (record { acknowledgement = acknowledgement; acknowledged_at_unix_ms = 1700000000001 })
      (acknowledge_incident acknowledgement blocked).1.database
unfolding acknowledge_incident transaction decode_incident is_manual subject_kind_eq all_chars
acknowledge_incident-Acknowledges_example =
    acknowledge_incident-Acknowledges acknowledgement blocked
      (record { acknowledgement = acknowledgement; acknowledged_at_unix_ms = 1700000000001 }) refl

acknowledge_incident-acknowledgement_example :
    Queries.acknowledgement 1
      (record (acknowledge_incident acknowledgement blocked).1 { faults = [] })
    ≡ ok (
        some
          (record { acknowledgement = acknowledgement; acknowledged_at_unix_ms = 1700000000001 }))
unfolding acknowledge_incident transaction decode_incident is_manual subject_kind_eq all_chars
    deploy_mcp.Domain.Recovery.acknowledgement_new deploy_mcp.Text.is_blank
    deploy_mcp.Text.is_whitespace
acknowledge_incident-acknowledgement_example =
    acknowledge_incident-acknowledgement acknowledgement blocked
      (record { acknowledgement = acknowledgement; acknowledged_at_unix_ms = 1700000000001 }) refl
      refl

-- An old superseded reference and the active one.
abbrev superseded_row : ReferenceRow
superseded_row = record {
  deployment_id = "d-0";
  application_id = "shop";
  environment_id = "staging";
  target = "host-1";
  backup_path = "/srv/backup/app.jar";
  install_path = "/srv/app/app.jar";
  rollback_task = "rollback";
  restart_task = "restart";
  health_check_task = "health";
  state = "superseded";
  created_at_unix_ms = 1000;
  updated_at_unix_ms = 2000;
}

abbrev kept : Connection
kept = record {
  database = record (database []) {
    references =
        superseded_row ∷ record superseded_row { deployment_id = "d-1"; state = "active" } ∷ [];
  };
  now = 1700000000001;
  faults = [];
}

prune_inactive_reference_snapshots-Pruned_example :
    Pruned 10 kept.now kept.database 1
      (prune_inactive_reference_snapshots (pos 5000) 10 kept).1.database
unfolding prune_inactive_reference_snapshots transaction selected order_by_update order_by
    is_prunable is_inactive not_after is_retained blank_references
prune_inactive_reference_snapshots-Pruned_example =
    prune_inactive_reference_snapshots-Pruned (pos 5000) 10 kept 1 refl

abbrev cleanup_service : RollbackRetentionService
cleanup_service = record { retention_days = 30; batch_size = 10 }

cleanup_at-is_expired_example :
    Marks
      (is_expired 30 2600000000)
      kept.now
      kept.database
      1
      (cleanup_at sqlite_retention cleanup_service (pos 2600000000) kept).1.database
unfolding cleanup_at retention_ms saturating_sub ◌>>=◌ prune_inactive_reference_snapshots
    transaction selected order_by_update order_by is_prunable is_inactive not_after is_retained
cleanup_at-is_expired_example =
    cleanup_at-is_expired cleanup_service 2600000000 kept
      (record { pruned_references = 1; cutoff_unix_ms = pos 8000000 }) (omega arith) refl

-- A deployment that has succeeded, with its active reference.
abbrev deployed : World Connection (Unit {0})
deployed = record {
  repository = record {
    database = record (database (record first_row { state = "succeeded" } ∷ [])) {
      references = record superseded_row { deployment_id = "d-1"; state = "active" } ∷ [];
    };
    now = 1700000000001;
    faults = [];
  };
  remote = tt;
  active = [];
}

rollback-Sound_example :
    Sound (sqlite_rollbacks sha256 snapshots) (sqlite_rollback_contract sha256 snapshots) "r-1" (
      rollback
        (sqlite_rollbacks sha256 snapshots)
        (sqlite codec)
        mechanism
        config
        "d-1"
        "r-1"
        deployed)
rollback-Sound_example =
    rollback-Sound (sqlite_rollbacks sha256 snapshots) (sqlite_rollback_contract sha256 snapshots)
      "r-1" (sqlite codec) mechanism config "d-1" deployed

-- A deployment and a rollback operation of two environments, both cut off by a restart.
abbrev restarted : Connection
restarted = record (connection (interrupted_row ∷ [])) {
  database = record (database (interrupted_row ∷ [])) {
    rollback_operations =
        record {
          id = "r-1";
          source_deployment_id = "d-0";
          application_id = "shop";
          environment_id = "production";
          state = "started";
          error = none;
          created_at_unix_ms = 5;
          finished_at_unix_ms = none;
        }
        ∷ [];
  };
}

recover-none_started_example :
    any is_started (recover sqlite_recovery restarted).1.database.rollback_operations ≡ false
unfolding recover ◌>>=◌ deploy_mcp.Application.Recovery.reading
    deploy_mcp.Persistence.Recovery.Queries.interrupted_deployments
    deploy_mcp.Persistence.Schema.query deploy_mcp.Persistence.Schema.order_by_creation order_by
    deploy_mcp.Persistence.Schema.is_active_row
    deploy_mcp.Persistence.Recovery.Queries.decode_interrupted
    deploy_mcp.Persistence.Decode.corrupt_domain deploy_mcp.Domain.Release.id_new
    deploy_mcp.Text.is_blank deploy_mcp.Text.is_whitespace deploy_mcp.Domain.Release.artifact_new
    deploy_mcp.Domain.Release.is_checksum all_chars deploy_mcp.Text.is_ascii_hexdigit
    deploy_mcp.Application.Recovery.calling deploy_mcp.Application.Recovery.recover_deployments
    deploy_mcp.Application.Recovery.recover_operations
    deploy_mcp.Application.Recovery.disposition_of State.has_live_mutation_started
    deploy_mcp.Domain.Deployment.rehydrate deploy_mcp.Domain.Deployment.rehydrate_with_release
    deploy_mcp.Persistence.Names.is_terminal_name deploy_mcp.Persistence.Names.parse_state
    deploy_mcp.Persistence.Schema.precedes deploy_mcp.Application.Exec.pure
    deploy_mcp.Application.Recovery.deployment_recovery_reason deploy_mcp.Text.trim
    deploy_mcp.Text.to_lower deploy_mcp.Text.to_ascii_lowercase
    deploy_mcp.Persistence.Rollback.Decode.corrupt_rollback Rollback.operation_id_new
    deploy_mcp.Persistence.Recovery.recover_rollback_operation
    deploy_mcp.Persistence.Recovery.Names.subject_kind_name
    deploy_mcp.Persistence.Schema.unresolved_in recover_deployment is_terminal transaction
    deployment_row state_name incident_violation
    deploy_mcp.Persistence.Recovery.Queries.started_rollback_operations
recover-none_started_example = recover-none_started restarted _ refl
