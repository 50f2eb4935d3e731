-- ===== src/Persistence/Recovery/Names.antt =====
-- src/recovery_persistence.rs: the texts of subject kinds and dispositions, and the decoding of an incident.
use deploy_mcp.Prelude.{String, [], ◌∷◌, ok, err, str_eq, if◌then◌else◌}
use deploy_mcp.Error.{format, text}
use deploy_mcp.Domain.Recovery.{
  RecoverySubjectKind, deployment, rollback_operation, RecoveryDisposition, auto_resolved,
  manual_reconciliation_required, RecoveryIncident,
}
use deploy_mcp.Ports.{RepositoryResult, corrupt_data}
use deploy_mcp.Persistence.Schema.{IncidentRow}
use deploy_mcp.Persistence.Insert.{◌>>=◌}

unfoldable pub subject_kind_name : RecoverySubjectKind → String
subject_kind_name deployment = "deployment"
subject_kind_name rollback_operation = "rollback_operation"

unfoldable pub parse_subject_kind : String → RepositoryResult RecoverySubjectKind
parse_subject_kind value =
    if str_eq value "deployment"
    then ok deployment
    else if str_eq value "rollback_operation"
    then ok rollback_operation
    else err (corrupt_data (format "unknown recovery subject kind: {other}" (text value ∷ [])))

unfoldable pub disposition_name : RecoveryDisposition → String
disposition_name auto_resolved = "auto_resolved"
disposition_name manual_reconciliation_required = "manual_reconciliation_required"

unfoldable pub parse_disposition : String → RepositoryResult RecoveryDisposition
parse_disposition value =
    if str_eq value "auto_resolved"
    then ok auto_resolved
    else if str_eq value "manual_reconciliation_required"
    then ok manual_reconciliation_required
    else err (corrupt_data (format "unknown recovery disposition: {other}" (text value ∷ [])))

unfoldable pub decode_incident : IncidentRow → RepositoryResult RecoveryIncident
unfolding parse_subject_kind parse_disposition
decode_incident row = do
  kind ← parse_subject_kind row.subject_kind
  disposition ← parse_disposition row.disposition
  ok (record {
    id = row.id;
    subject_kind = kind;
    subject_id = row.subject_id;
    application = row.application_id;
    environment = row.environment_id;
    previous_state = row.previous_state;
    disposition = disposition;
    reason = row.reason;
    created_at_unix_ms = row.created_at_unix_ms;
    resolved_at_unix_ms = row.resolved_at_unix_ms;
  })
