-- ===== src/Persistence/Recovery/Queries/Laws.antt =====
-- The rollback operations that a startup recovery reads, and what recovering one does to the started ones.
use deploy_mcp.Prelude.{
  ℕ, String, ◌≡◌, refl, ap, ◌∙◌, Bool, true, false, Option, some, List, [], ◌∷◌, ok, any, filter,
  str_eq, if◌then◌else◌, arith, eq_refl, Bool-cases, inl, inr,
}
use deploy_mcp.Error.{Message}
use deploy_mcp.Domain.Rollback.{RollbackOperation, operation_id_new}
use deploy_mcp.Domain.Recovery.{
  RecoveryIncident, rollback_operation, manual_reconciliation_required,
}
use deploy_mcp.Persistence.Order.{order_by, any-order_by}
use deploy_mcp.Persistence.Schema.{Database, Connection, OperationRow}
use deploy_mcp.Persistence.Schema.Laws.{transaction-ok, query-ok}
use deploy_mcp.Persistence.Insert.Laws.{bind-ok}
use deploy_mcp.Persistence.Recovery.{
  is_started_operation, fail_operations, recover_operation_body, recover_rollback_operation,
}
use deploy_mcp.Domain.Release.{id_new}
use deploy_mcp.Persistence.Decode.{corrupt_domain}
use deploy_mcp.Persistence.Rollback.Decode.{corrupt_rollback}
use deploy_mcp.Persistence.Recovery.Laws.{insert_incident-blocks}
use deploy_mcp.Persistence.Recovery.Queries.{
  decode_rows, decode_rollback, precedes, started_rollback_operations,
}

abbrev pub is_started : OperationRow → Bool
is_started row = str_eq row.state "started"

-- A started operation with the identifier is stored.
abbrev pub running : String → Database → Bool
running id db = any (is_started_operation id) db.rollback_operations

-- The identifier is among those of the operations.
abbrev pub listed : String → List RollbackOperation → Bool
listed id operations = any (λ (o : RollbackOperation). str_eq o.id id) operations

any-fail_operations :
    (j id : String) (reason : Message) (now : ℕ) (rows : List OperationRow)
    → any (is_started_operation j) rows ≡ false
    → any (is_started_operation j) (fail_operations id reason now rows) ≡ false
unfolding fail_operations is_started_operation
any-fail_operations j id reason now [] h = refl
any-fail_operations j id reason now (row ∷ rows) h =
    ground (arith, any-fail_operations j id reason now rows)

closed-row :
    (id : String) (reason : Message) (now : ℕ) (row : OperationRow) (b : Bool)
    → is_started_operation id row ≡ b
    → is_started_operation id (
        if b
        then record row { state = "failed"; error = some reason; finished_at_unix_ms = some now }
        else row)
      ≡ false
unfolding is_started_operation
closed-row id reason now row true h = ground arith
closed-row id reason now row false h = h

none-fail_operations :
    (id : String) (reason : Message) (now : ℕ) (rows : List OperationRow)
    → any (is_started_operation id) (fail_operations id reason now rows) ≡ false
unfolding fail_operations
none-fail_operations id reason now [] = refl
none-fail_operations id reason now (row ∷ rows) = ground (
  arith,
  closed-row id reason now row (is_started_operation id row) refl,
  none-fail_operations id reason now rows,
)

-- After the recovery of an operation it is not running, and nothing new runs.
abbrev pub Stops : RollbackOperation → Database → Database → Type 0
Stops o db db' =
    (running o.id db' ≡ false) × ((j : String) → running j db ≡ false → running j db' ≡ false)

recover_operation_body-Stops :
    (o : RollbackOperation) (reason : Message) (now : ℕ) (db db' : Database)
    (i : Option RecoveryIncident)
    → recover_operation_body o reason now db ≡ ok (i, db')
    → Stops o db db'
unfolding recover_operation_body
recover_operation_body-Stops o reason now db db' i h = elim (Bool-cases (running o.id db)) [
  | inl here ↦
      let closed = record db {
        rollback_operations = fail_operations o.id reason now db.rollback_operations;
      } in
      let (made, deployments, operations, blocks) =
        insert_incident-blocks rollback_operation o.id o.application o.environment "started"
          manual_reconciliation_required reason now closed db' i (ground arith) in
      (
        ap (any (is_started_operation o.id)) operations
            ∙ none-fail_operations o.id reason now db.rollback_operations,
        λ j before.
            ap (any (is_started_operation j)) operations
            ∙ any-fail_operations j o.id reason now db.rollback_operations before,
      )
  | inr idle ↦ (ground arith, λ j before. ground arith)
]

pub recover_rollback_operation-Stops :
    (o : RollbackOperation) (reason : Message) (c : Connection) (i : Option RecoveryIncident)
    → (recover_rollback_operation o reason c).0 ≡ ok i
    → Stops o c.database (recover_rollback_operation o reason c).1.database
unfolding recover_rollback_operation
recover_rollback_operation-Stops o reason c i h =
    recover_operation_body-Stops o reason c.now c.database
      (recover_rollback_operation o reason c).1.database i
      (transaction-ok (recover_operation_body o reason) c h)

decode_rollback-id :
    (row : OperationRow) (o : RollbackOperation) → decode_rollback row ≡ ok o → o.id ≡ row.id
unfolding decode_rollback operation_id_new corrupt_rollback corrupt_domain id_new
decode_rollback-id row o h = ground arith

decode_rows-listed :
    (j : String) (rows : List OperationRow) (operations : List RollbackOperation)
    → decode_rows decode_rollback rows ≡ ok operations
    → any (λ (row : OperationRow). str_eq row.id j) rows ≡ true
    → listed j operations ≡ true
decode_rows-listed j [] operations h found = cc
decode_rows-listed j (row ∷ rows) operations h found =
    let (o, decoded, h) = bind-ok (decode_rollback row) _ h in
    let (os, rest, h) = bind-ok (decode_rows decode_rollback rows) _ h in
    let same = decode_rollback-id row o decoded in
    let later = decode_rows-listed j rows os rest in ground arith

any-filter :
    (j : String) (rows : List OperationRow)
    → any (λ (row : OperationRow). str_eq row.id j) (filter is_started rows)
      ≡ any (is_started_operation j) rows
unfolding is_started_operation
any-filter j [] = refl
any-filter j (row ∷ rows) = ground (arith, any-filter j rows)

-- A query of the started operations lists every one that is running.
pub started_rollback_operations-listed :
    (c : Connection) (operations : List RollbackOperation)
    → started_rollback_operations c ≡ ok operations
    → (j : String) → running j c.database ≡ true
    → listed j operations ≡ true
unfolding started_rollback_operations
started_rollback_operations-listed c operations h j here =
    let sorted = order_by precedes c.database.rollback_operations in
    decode_rows-listed j (filter is_started sorted) operations (query-ok _ c h) (
      any-filter j sorted
      ∙ any-order_by precedes (is_started_operation j) c.database.rollback_operations
      ∙ here)

none-started :
    (rows : List OperationRow)
    → ((j : String) → any (is_started_operation j) rows ≡ false)
    → any is_started rows ≡ false
unfolding is_started_operation
none-started [] h = refl
none-started (row ∷ rows) h =
    let later = none-started rows (λ j. let k = h j in ground arith) in
    let own = h row.id in ground (arith, eq_refl row.id)

-- Where no identifier is running, no operation is started.
pub none-running :
    (db : Database)
    → ((j : String) → running j db ≡ false)
    → any is_started db.rollback_operations ≡ false
none-running db h = none-started db.rollback_operations h
