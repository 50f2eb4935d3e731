-- ===== src/Domain/Recovery.antt =====
-- src/domain/recovery.rs: recovery incidents and the acknowledgement by which an operator resolves one.
use deploy_mcp.Prelude.{
  ℕ, String, Bool, true, false, not, ◌&&◌, Option, Result, ok, err, ◌==◌, if◌then◌else◌, is_some,
}
use deploy_mcp.Text.{is_blank}
use deploy_mcp.Error.{Message}

pub data RecoverySubjectKind : Type 0 where
  deployment rollback_operation : RecoverySubjectKind

pub data RecoveryDisposition : Type 0 where
  auto_resolved manual_reconciliation_required : RecoveryDisposition

pub record RecoveryIncident : Type 0 where
  pub id : ℕ  -- u64
  pub subject_kind : RecoverySubjectKind
  pub subject_id : String
  pub application : String
  pub environment : String
  pub previous_state : String
  pub disposition : RecoveryDisposition
  pub reason : Message
  pub created_at_unix_ms : ℕ
  pub resolved_at_unix_ms : Option ℕ

unfoldable pub is_manual : RecoveryDisposition → Bool
is_manual auto_resolved = false
is_manual manual_reconciliation_required = true

unfoldable pub requires_manual_reconciliation : RecoveryIncident → Bool
unfolding is_manual
requires_manual_reconciliation incident =
    is_manual incident.disposition && not (is_some incident.resolved_at_unix_ms)

unfoldable pub subject_kind_eq : RecoverySubjectKind → RecoverySubjectKind → Bool
subject_kind_eq deployment deployment = true
subject_kind_eq rollback_operation rollback_operation = true
subject_kind_eq _ _ = false

pub record RecoveryAcknowledgement : Type 0 where
  pub incident_id : ℕ  -- u64
  pub application : String
  pub environment : String
  pub subject_kind : RecoverySubjectKind
  pub subject_id : String
  pub operator : String
  pub evidence : String

pub data RecoveryError : Type 0 where
  invalid_incident_id : RecoveryError
  empty_field : String → RecoveryError

-- `RecoveryAcknowledgement::new`: the first field that is blank gives the error.
unfoldable pub acknowledgement_new :
    RecoveryAcknowledgement → Result RecoveryError RecoveryAcknowledgement
acknowledgement_new a =
    if a.incident_id == 0
    then err invalid_incident_id
    else if is_blank a.application
    then err (empty_field "application")
    else if is_blank a.environment
    then err (empty_field "environment")
    else if is_blank a.subject_id
    then err (empty_field "subject_id")
    else if is_blank a.operator
    then err (empty_field "operator")
    else if is_blank a.evidence
    then err (empty_field "evidence")
    else ok a

pub record RecoveryAcknowledgementRecord : Type 0 where
  pub acknowledgement : RecoveryAcknowledgement
  pub acknowledged_at_unix_ms : ℕ
