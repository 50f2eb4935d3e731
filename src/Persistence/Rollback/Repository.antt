-- ===== src/Persistence/Rollback/Repository.antt =====
-- src/rollback_persistence.rs: `SqliteRollbackRepository`, the implementation of its two ports.
use deploy_mcp.Ports.Rollback.{RollbackRepository, RollbackRetentionRepository}
use deploy_mcp.Domain.Rollback.{Sha256}
use deploy_mcp.Persistence.Schema.{Connection}
use deploy_mcp.Persistence.Rollback.Decode.{SnapshotCodec}
use deploy_mcp.Persistence.Rollback.References.{record_reference, get_reference}
use deploy_mcp.Persistence.Rollback.Operations.{begin_operation, finish_operation, get_operation}
use deploy_mcp.Persistence.Rollback.Retention.{prune_inactive_reference_snapshots}

abbrev pub sqlite_rollbacks : Sha256 → SnapshotCodec → RollbackRepository Connection
sqlite_rollbacks sha256 codec = record {
  record_reference = record_reference sha256 codec;
  get_reference = get_reference sha256 codec;
  begin_operation = begin_operation sha256 codec;
  finish_operation = finish_operation;
  get_operation = get_operation;
}

abbrev pub sqlite_retention : RollbackRetentionRepository Connection
sqlite_retention = record {
  prune_inactive_reference_snapshots = prune_inactive_reference_snapshots;
}
