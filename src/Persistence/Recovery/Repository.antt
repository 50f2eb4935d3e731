-- ===== src/Persistence/Recovery/Repository.antt =====
-- src/recovery_persistence.rs: `SqliteRecoveryRepository`, the implementation of its port.
use deploy_mcp.Ports.Recovery.{RecoveryRepository}
use deploy_mcp.Persistence.Schema.{Connection}
use deploy_mcp.Persistence.Recovery.{
  recover_deployment, recover_rollback_operation, acknowledge_incident,
}
use deploy_mcp.Persistence.Recovery.Queries.{
  interrupted_deployments, started_rollback_operations, unresolved_incidents, get_incident,
  acknowledgement,
}

abbrev pub sqlite_recovery : RecoveryRepository Connection
sqlite_recovery = record {
  interrupted_deployments = interrupted_deployments;
  started_rollback_operations = started_rollback_operations;
  recover_deployment = recover_deployment;
  recover_rollback_operation = recover_rollback_operation;
  unresolved_incidents = unresolved_incidents;
  get_incident = get_incident;
  acknowledge_incident = acknowledge_incident;
  acknowledgement = acknowledgement;
}
