-- ===== src/Persistence/Schema.antt =====
-- The database of migrations/*.sql: a table is the list of its rows in the order of their rowids. A
-- transaction is all or nothing, and a call may fail for a reason of the storage.
pub mod Laws
use deploy_mcp.Prelude.{
  ℕ, String, Bool, true, false, not, ◌&&◌, ◌||◌, Option, none, some, List, [], ◌∷◌, ok, err, find?,
  str_eq, ltb, ◌==◌, if◌then◌else◌,
}
use Prim.Native.Nat.{Ordering}
use Prim.Native.String.{compare}
use deploy_mcp.Persistence.Order.{order_by, at_most}
use deploy_mcp.Error.{Message}
use deploy_mcp.Ports.{RepositoryResult, storage}
use deploy_mcp.Persistence.Names.{is_terminal_name}

-- A timestamp is the milliseconds since the Unix epoch.
pub record DeploymentRow : Type 0 where
  pub id : String
  pub application_id : String
  pub environment_id : String
  pub artifact_version : String
  pub artifact_size_bytes : ℕ
  pub artifact_sha256 : String
  pub state : String
  pub created_at_unix_ms : ℕ
  pub updated_at_unix_ms : ℕ

-- `deployment_model_metadata`.
pub record MetadataRow : Type 0 where
  pub deployment_id : String
  pub mechanism_kind : String
  pub release_identity_json : String

pub record TransitionRow : Type 0 where
  pub deployment_id : String
  pub from_state : String
  pub to_state : String
  pub occurred_at_unix_ms : ℕ

pub record AttemptRow : Type 0 where
  pub id : ℕ
  pub deployment_id : String
  pub step : String
  pub status : String
  pub error : Option Message
  pub started_at_unix_ms : ℕ
  pub finished_at_unix_ms : Option ℕ

-- `deployment_idempotency`.
pub record IdempotencyRow : Type 0 where
  pub idempotency_key : String
  pub deployment_id : String
  pub created_at_unix_ms : ℕ

pub record OperationRow : Type 0 where
  pub id : String
  pub source_deployment_id : String
  pub application_id : String
  pub environment_id : String
  pub state : String
  pub error : Option Message
  pub created_at_unix_ms : ℕ
  pub finished_at_unix_ms : Option ℕ

pub record IncidentRow : Type 0 where
  pub id : ℕ
  pub subject_kind : String
  pub subject_id : String
  pub application_id : String
  pub environment_id : String
  pub previous_state : String
  pub disposition : String
  pub reason : Message
  pub created_at_unix_ms : ℕ
  pub resolved_at_unix_ms : Option ℕ

-- `rollback_references`.
pub record ReferenceRow : Type 0 where
  pub deployment_id : String
  pub application_id : String
  pub environment_id : String
  pub target : String
  pub backup_path : String
  pub install_path : String
  pub rollback_task : String
  pub restart_task : String
  pub health_check_task : String
  pub state : String
  pub created_at_unix_ms : ℕ
  pub updated_at_unix_ms : ℕ

-- `rollback_reference_model`.
pub record ReferenceModelRow : Type 0 where
  pub deployment_id : String
  pub mechanism_kind : String
  pub contract_fingerprint : String
  pub mechanism_snapshot_json : String

-- `rollback_reference_retention`.
pub record RetentionRow : Type 0 where
  pub deployment_id : String
  pub snapshot_pruned_at_unix_ms : ℕ

-- `recovery_acknowledgements`.
pub record AcknowledgementRow : Type 0 where
  pub incident_id : ℕ
  pub application_id : String
  pub environment_id : String
  pub subject_kind : String
  pub subject_id : String
  pub operator : String
  pub evidence : String
  pub acknowledged_at_unix_ms : ℕ

pub record Database : Type 0 where
  pub deployments : List DeploymentRow
  pub metadata : List MetadataRow
  pub transitions : List TransitionRow
  pub attempts : List AttemptRow
  pub attempt_sequence : ℕ
  pub idempotency : List IdempotencyRow
  pub rollback_operations : List OperationRow
  pub recovery_incidents : List IncidentRow
  pub incident_sequence : ℕ
  pub references : List ReferenceRow
  pub reference_models : List ReferenceModelRow
  pub retention : List RetentionRow
  pub acknowledgements : List AcknowledgementRow

-- A connection: the committed database, what the clock shows, and for each coming call the storage error
-- with which it fails, if it does.
pub record Connection : Type 0 where
  pub database : Database
  pub now : ℕ
  pub faults : List (Option Message)

commit :
    {A : Type 0} → Connection → RepositoryResult (A × Database) → RepositoryResult A × Connection
commit c (ok (a, database)) = (ok a, record c { database = database })
commit c (err e) = (err e, c)

next_call :
    {A : Type 0}
    → (ℕ → Database → RepositoryResult (A × Database))
    → Connection
    → List (Option Message)
    → RepositoryResult A × Connection
unfolding commit
next_call body c [] = commit c (body c.now c.database)
next_call body c (none ∷ faults) = commit (record c { faults = faults }) (body c.now c.database)
next_call body c (some m ∷ faults) = (err (storage m), record c { faults = faults })

-- One transaction: committed where the body succeeds, rolled back where it fails.
unfoldable pub transaction :
    {A : Type 0}
    → (ℕ → Database → RepositoryResult (A × Database))
    → Connection
    → RepositoryResult A × Connection
unfolding next_call
transaction body c = next_call body c c.faults

pending :
    {A : Type 0}
    → (Database → RepositoryResult A)
    → Connection
    → List (Option Message)
    → RepositoryResult A
pending body c [] = body c.database
pending body c (none ∷ faults) = body c.database
pending body c (some m ∷ faults) = err (storage m)

-- A query sees the committed database, or fails as the coming call does.
unfoldable pub query :
    {A : Type 0} → (Database → RepositoryResult A) → Connection → RepositoryResult A
unfolding pending
query body c = pending body c c.faults

-- The condition of the partial unique index `idx_deployments_active_environment`.
unfoldable pub is_active_row : DeploymentRow → Bool
unfolding is_terminal_name
is_active_row row = not (is_terminal_name row.state)

unfoldable pub same_environment : String → String → String → String → Bool
same_environment application environment a e = str_eq a application && str_eq e environment

-- An active deployment of the environment.
unfoldable pub active_in : String → String → DeploymentRow → Bool
unfolding is_active_row same_environment
active_in application environment row =
    same_environment application environment row.application_id row.environment_id
    && is_active_row row

-- A started rollback operation, and an unresolved incident, of the environment.
unfoldable pub started_in : String → String → OperationRow → Bool
unfolding same_environment
started_in application environment row =
    same_environment application environment row.application_id row.environment_id
    && str_eq row.state "started"

unfoldable pub unresolved_in : String → String → IncidentRow → Bool
unfolding same_environment
unresolved_in application environment row =
    same_environment application environment row.application_id row.environment_id
    && elim row.resolved_at_unix_ms [ none ↦ true | some t ↦ false ]

unfoldable pub deployment_row : String → Database → Option DeploymentRow
deployment_row id db = find? (λ row. str_eq row.id id) db.deployments

unfoldable pub metadata_row : String → Database → Option MetadataRow
metadata_row id db = find? (λ row. str_eq row.deployment_id id) db.metadata

-- `ORDER BY created_at_unix_ms, id`.
unfoldable pub precedes : DeploymentRow → DeploymentRow → Bool
precedes a b =
    ltb a.created_at_unix_ms b.created_at_unix_ms
    || (a.created_at_unix_ms == b.created_at_unix_ms && at_most (compare a.id b.id))

unfoldable pub order_by_creation : List DeploymentRow → List DeploymentRow
order_by_creation = order_by precedes
