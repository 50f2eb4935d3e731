-- ===== src/Persistence/Rollback/Contract.antt =====
-- The SQLite repository fulfils what the rollback service relies on.
use deploy_mcp.Prelude.{
  ℕ, ◌≡◌, refl, ap, ◌∙◌, true, Option, none, some, List, [], ◌∷◌, ok, err, find?, str_eq, eq_refl,
  eq_iff, arith, Bool-cases, inl, inr,
}
use deploy_mcp.Error.{Message}
use deploy_mcp.Domain.Release.{DeploymentId, id_new}
use deploy_mcp.Domain.Rollback.{
  Sha256, RollbackReference, RollbackOperation, RollbackOperationId, RollbackOperationState,
  operation_id_new,
}
use deploy_mcp.Domain.Rollback
use deploy_mcp.Ports.{RepositoryResult}
use deploy_mcp.Ports.Rollback.Contract.{RollbackContract}
use deploy_mcp.Persistence.Schema.{Database, Connection, OperationRow}
use deploy_mcp.Persistence.Schema.Laws.{find?-append}
use deploy_mcp.Persistence.Decode.{corrupt_domain}
use deploy_mcp.Persistence.Insert.Laws.{bind-ok}
use deploy_mcp.Persistence.Rollback.Decode.{
  SnapshotCodec, operation_state_name, parse_operation_state, decode_operation, corrupt_rollback,
}
use deploy_mcp.Persistence.Rollback.Operations.{
  operation_row, new_operation, finish_operations, is_running, meets, get_operation,
}
use deploy_mcp.Persistence.Rollback.Operations.Keeps.{
  Begins, begin_operation-Begins, Finishes, finish_operation-Finishes, get_operation-row,
}
use deploy_mcp.Persistence.Rollback.Repository.{sqlite_rollbacks}

parsed : RepositoryResult RollbackOperationState → Option RollbackOperationState
parsed (ok s) = some s
parsed (err e) = none

row_status : Option OperationRow → Option RollbackOperationState
unfolding parsed
row_status none = none
row_status (some row) = parsed (parse_operation_state row.state)

-- The durable state of an operation.
unfoldable pub stored_status : RollbackOperationId → Database → Option RollbackOperationState
unfolding row_status
stored_status id db = row_status (operation_row id db)

parse_operation_state-name :
    (s : RollbackOperationState) → parse_operation_state (operation_state_name s) ≡ ok s
unfolding parse_operation_state operation_state_name
parse_operation_state-name Rollback.started = refl
parse_operation_state-name Rollback.succeeded = refl
parse_operation_state-name Rollback.failed = refl

row_status-named :
    (row : OperationRow) (s : RollbackOperationState)
    → row.state ≡ operation_state_name s
    → row_status (some row) ≡ some s
unfolding row_status parsed
row_status-named row s h = ap parsed (ap parse_operation_state h ∙ parse_operation_state-name s)

find?-finish_operations :
    (id : RollbackOperationId) (source : DeploymentId) (state : RollbackOperationState)
    (error : Option Message) (now : ℕ) (rows : List OperationRow) (row : OperationRow)
    → find? (λ (row : OperationRow). str_eq row.id id) rows ≡ some row
    → is_running id source row ≡ true
    → (found : OperationRow) × (find?
          (λ (row : OperationRow). str_eq row.id id)
          (finish_operations id source state error now rows)
        ≡ some found)
      × (found.state ≡ operation_state_name state)
unfolding finish_operations
find?-finish_operations id source state error now [] row h r = cc
find?-finish_operations id source state error now (o ∷ os) row h r =
    elim (Bool-cases (str_eq o.id id)) [
      | inl here ↦ (
        record o {
          state = operation_state_name state;
          error = error;
          finished_at_unix_ms = some now;
        },
        ground arith,
        refl,
      )
      | inr there ↦
          let (found, e, s) =
            find?-finish_operations id source state error now os row (ground arith) r in
          (found, ground arith, s)
    ]

met-running :
    (id : RollbackOperationId) (source : DeploymentId) (o : Option OperationRow)
    → meets id source o ≡ true
    → (row : OperationRow) × (o ≡ some row) × (is_running id source row ≡ true)
unfolding meets
met-running id source none h = cc
met-running id source (some row) h = (row, refl, h)

stored_status-row :
    (id : RollbackOperationId) (db : Database) {row : OperationRow} (s : RollbackOperationState)
    → operation_row id db ≡ some row
    → row.state ≡ operation_state_name s
    → stored_status id db ≡ some s
unfolding stored_status
stored_status-row id db {row} s h named = ap row_status h ∙ row_status-named row s named

begin-stored :
    (operation : RollbackOperation) (now : ℕ) (db db' : Database)
    → Begins operation now db db'
    → stored_status operation.id db' ≡ some Rollback.started
unfolding operation_row new_operation operation_state_name
begin-stored operation now db db' ((inactive, settled, idle, fresh), same) =
    stored_status-row operation.id db' {row = new_operation operation now} Rollback.started
      (ap (operation_row operation.id) same
        ∙ find?-append (λ (row : OperationRow). str_eq row.id operation.id) db.rollback_operations
            (new_operation operation now) fresh (eq_refl operation.id))
      refl

finish-stored :
    (id : RollbackOperationId) (source : DeploymentId) (state : RollbackOperationState)
    (error : Option Message) (now : ℕ) (db db' : Database)
    → Finishes id source state error now db db'
    → (stored_status id db ≡ some Rollback.started) × (stored_status id db' ≡ some state)
unfolding operation_row operation_state_name is_running
finish-stored id source state error now db db' (met, rows, operations) =
    let (row, found, running) = met-running id source (operation_row id db) met in
    let (ended, e, s) =
      find?-finish_operations id source state error now db.rollback_operations row found running in
    (
      stored_status-row id db {row = row} Rollback.started found
          ((eq_iff row.state "started").0 (ground arith)),
      stored_status-row id db' {row = ended} state
          (ap (find? (λ (row : OperationRow). str_eq row.id id)) operations ∙ e) s,
    )

decode_operation-state :
    (row : OperationRow) (operation : RollbackOperation)
    → decode_operation row ≡ ok operation
    → parse_operation_state row.state ≡ ok operation.state
unfolding decode_operation
decode_operation-state row operation h =
    let (id, a, h) = bind-ok (corrupt_rollback (operation_id_new row.id)) _ h in
    let (source, b, h) =
      bind-ok (corrupt_domain (id_new "DeploymentId" row.source_deployment_id)) _ h in
    let (application, d, h) =
      bind-ok (corrupt_domain (id_new "ApplicationId" row.application_id)) _ h in
    let (environment, e, h) =
      bind-ok (corrupt_domain (id_new "EnvironmentId" row.environment_id)) _ h in
    let (state, s, h) = bind-ok (parse_operation_state row.state) _ h in
    let same : state ≡ operation.state = ground arith in s ∙ ap ok same

get-stored :
    (id : RollbackOperationId) (operation : RollbackOperation) (c : Connection)
    → get_operation id c ≡ ok (some operation)
    → stored_status id c.database ≡ some operation.state
unfolding stored_status row_status
get-stored id operation c h =
    let (row, found, decoded) = get_operation-row id operation c h in
    ap row_status found ∙ ap parsed (decode_operation-state row operation decoded)

-- The SQLite repository, from any database, tells by its results in which states it has stored the operations.
pub sqlite_rollback_contract :
    (sha256 : Sha256) (codec : SnapshotCodec) → RollbackContract (sqlite_rollbacks sha256 codec)
sqlite_rollback_contract sha256 codec = record {
  status = λ c id. stored_status id c.database;
  begin-ok = λ operation c reference h.
      begin-stored operation c.now c.database _
        (begin_operation-Begins sha256 codec operation c reference h);
  finish-ok = λ id source state error c h.
      finish-stored id source state error c.now c.database _
        (finish_operation-Finishes id source state error c h);
  get-ok = get-stored;
}
