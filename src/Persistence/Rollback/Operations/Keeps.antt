-- ===== src/Persistence/Rollback/Operations/Keeps.antt =====
-- Beginning and finishing a rollback operation keep the environments guarded.
use deploy_mcp.Prelude.{
  none, some, ℕ, ◌≡◌, refl, sym, ap, ◌∙◌, Bool, true, false, not, Option, List, [], ◌∷◌, ◌++◌, ok,
  err, any, if◌then◌else◌, arith, Bool-cases, inl, inr,
}
use mathlib.Core.Path.{subst}
use deploy_mcp.Error.{Message}
use deploy_mcp.Domain.Release.{DeploymentId}
use deploy_mcp.Domain.Rollback.{
  RollbackReference, Sha256, RollbackOperation, RollbackOperationId, RollbackOperationState,
}
use deploy_mcp.Ports.{RepositoryResult, rollback_operation_conflict}
use deploy_mcp.Persistence.Schema.{
  transaction, Database, Connection, OperationRow, active_in, started_in, unresolved_in,
  deployment_row,
}
use deploy_mcp.Persistence.Schema.Laws.{transaction-keeps, transaction-ok, query-ok}
use deploy_mcp.Persistence.Insert.{◌>>=◌}
use deploy_mcp.Persistence.Insert.Laws.{bind-ok}
use deploy_mcp.Persistence.Guarded.{
  Guarded, Fewer, OneStarted-Fewer, Apart-Fewer, OneStarted-append, Apart-append-operation, Same,
  Guarded-Same,
}
use deploy_mcp.Persistence.Rollback.Decode.{
  decode_operation, SnapshotCodec, decode_reference, reference_row, model_row, operation_state_name,
}
use deploy_mcp.Persistence.Rollback.References.{found_source, check_source}
use deploy_mcp.Persistence.Rollback.Operations.{
  get_operation, decode_found, check_identity, begin_body, begin_operation, insert_operation,
  new_operation, operation_violation, active_row, finishes, finish_operation, finish_operations,
  finish_body, is_running, meets, operation_row, consume,
}

-- The new operation is appended, in an environment that no other mutation holds.
abbrev pub Begins : RollbackOperation → ℕ → Database → Database → Type 0
Begins operation now db db' =
    ((any (active_in operation.application operation.environment) db.deployments ≡ false)
      × (any (unresolved_in operation.application operation.environment) db.recovery_incidents
          ≡ false)
      × (any (started_in operation.application operation.environment) db.rollback_operations
          ≡ false)
      × (operation_row operation.id db ≡ none))
    × (db' ≡ record db {
      rollback_operations = db.rollback_operations ++ new_operation operation now ∷ [];
    })

insert_operation-Begins :
    (operation : RollbackOperation) (now : ℕ) (db db' : Database)
    → insert_operation operation now db ≡ ok db'
    → Begins operation now db db'
unfolding insert_operation operation_violation
insert_operation-Begins operation now db db' h =
    ((ground arith, ground arith, ground arith, ground arith), ground arith)

Begins-Guarded :
    (operation : RollbackOperation) (now : ℕ) (db db' : Database)
    → Guarded db
    → Begins operation now db db'
    → Guarded db'
unfolding new_operation
Begins-Guarded operation now db db' (exclusive, one, apart)
      ((inactive, settled, idle, fresh), same) =
    let os = db.rollback_operations in
    let new = new_operation operation now in
    subst Guarded (sym same) (
      exclusive,
      OneStarted-append os new one idle,
      Apart-append-operation os new db.deployments apart inactive,
    )

module _ (sha256 : Sha256) (codec : SnapshotCodec) (operation : RollbackOperation)
    (c : Connection) where
  begin_body-Begins :
      (now : ℕ) (db db' : Database) (reference : RollbackReference)
      → begin_body sha256 codec operation now db ≡ ok (reference, db')
      → Begins operation now db db'
  unfolding begin_body
  begin_body-Begins now db db' reference h =
      let source_id = operation.source_deployment_id in
      let (row, found, h) = bind-ok (active_row source_id (reference_row source_id db)) _ h in
      let (decoded, d, h) =
        bind-ok (decode_reference sha256 codec row (model_row row.deployment_id db)) _ h in
      let (v, named, h) = bind-ok (check_identity operation decoded) _ h in
      let (source, s, h) = bind-ok (found_source source_id (deployment_row source_id db)) _ h in
      let (w, checked, h) =
        bind-ok (check_source source_id operation.application operation.environment source db) _
          h in
      let (db1, inserted, h) = bind-ok (insert_operation operation now db) _ h in
      let same : db1 ≡ db' = ground arith in
      insert_operation-Begins operation now db db' (inserted ∙ ap ok same)

  pub begin_operation-Begins :
      (reference : RollbackReference)
      → (begin_operation sha256 codec operation c).0 ≡ ok reference
      → Begins operation c.now c.database (begin_operation sha256 codec operation c).1.database
  unfolding begin_operation
  begin_operation-Begins reference h =
      begin_body-Begins c.now c.database (begin_operation sha256 codec operation c).1.database
        reference (transaction-ok (begin_body sha256 codec operation) c h)

  pub begin_operation-keeps :
      (P : Database → Type 0)
      → ((db : Database) → Begins operation c.now c.database db → P db)
      → P c.database
      → P (begin_operation sha256 codec operation c).1.database
  unfolding begin_operation
  begin_operation-keeps P grow x =
      transaction-keeps (begin_body sha256 codec operation) c P
        (λ reference db' h. grow db' (begin_body-Begins c.now c.database db' reference h)) x

  pub begin_operation-Guarded :
      Guarded c.database → Guarded (begin_operation sha256 codec operation c).1.database
  begin_operation-Guarded g =
      begin_operation-keeps Guarded (λ db. Begins-Guarded operation c.now c.database db g) g

module _ (id : RollbackOperationId) (source : DeploymentId) (state : RollbackOperationState)
    (error : Option Message) where
  finish_operations-Fewer :
      (now : ℕ) (rows : List OperationRow)
      → finishes state error ≡ true
      → Fewer rows (finish_operations id source state error now rows)
  unfolding finish_operations finishes is_running operation_state_name
  finish_operations-Fewer now [] f = tt
  finish_operations-Fewer now (row ∷ rows) f =
      (ground arith, ground arith, ground arith, finish_operations-Fewer now rows f)

  last :
      (r : RepositoryResult Database) (db : Database)
      → ◌>>=◌ {B = (Unit {0}) × Database} r (λ db. ok (tt, db)) ≡ ok (tt, db)
      → r ≡ ok db
  last r db h = ground arith

  consume-Same : (now : ℕ) (db db' : Database) → consume source state now db ≡ ok db' → Same db db'
  unfolding consume
  consume-Same now db db' h = (ground arith, ground arith)

  -- The operation met a started row, and ended the rows that it meets.
  abbrev pub Finishes : ℕ → Database → Database → Type 0
  Finishes now db db' =
      (meets id source (operation_row id db) ≡ true)
      × (db'.deployments ≡ db.deployments)
      × (db'.rollback_operations
          ≡ finish_operations id source state error now db.rollback_operations)

  finish_body-Finishes :
      (now : ℕ) (db db' : Database)
      → finish_body id source state error now db ≡ ok (tt, db')
      → Finishes now db db'
  unfolding finish_body
  finish_body-Finishes now db db' h = elim (Bool-cases (meets id source (operation_row id db))) [
    | inl met ↦
        let ended = record db {
          rollback_operations = finish_operations id source state error now db.rollback_operations;
        } in
        let (rows, operations) =
          consume-Same now ended db' (last (consume source state now ended) db' (ground arith)) in
        (met, rows, operations)
    | inr idle ↦ cc
  ]

  Finishes-Guarded :
      (now : ℕ) (db db' : Database)
      → finishes state error ≡ true
      → Guarded db
      → Finishes now db db'
      → Guarded db'
  Finishes-Guarded now db db' f (exclusive, one, apart) (met, rows, operations) =
      let os = finish_operations id source state error now db.rollback_operations in
      let fewer = finish_operations-Fewer now db.rollback_operations f in
      Guarded-Same (record db { rollback_operations = os }) db'
        (
          exclusive,
          OneStarted-Fewer db.rollback_operations os fewer one,
          Apart-Fewer db.rollback_operations os db.deployments fewer apart,
        )
        (rows, operations)

  if-Guarded :
      (b : Bool) (x y : RepositoryResult (Unit {0}) × Connection)
      → Guarded x.1.database
      → (b ≡ true → Guarded y.1.database)
      → Guarded (if not b then x else y).1.database
  if-Guarded true x y gx gy = gy refl
  if-Guarded false x y gx gy = gx

  pub finish_operation-Guarded :
      (c : Connection)
      → Guarded c.database
      → Guarded (finish_operation id source state error c).1.database
  unfolding finish_operation
  finish_operation-Guarded c g =
      if-Guarded (finishes state error) (err (rollback_operation_conflict id), c)
        (transaction (finish_body id source state error) c) g
        (λ f.
          transaction-keeps (finish_body id source state error) c Guarded
            (λ u db' h.
              Finishes-Guarded c.now c.database db' f g
                (finish_body-Finishes c.now c.database db' h))
            g)

  if-ok :
      (b : Bool) (x y : RepositoryResult (Unit {0}) × Connection) (P : Database → Type 0)
      → (x.0 ≡ ok tt → P x.1.database)
      → (y.0 ≡ ok tt → P y.1.database)
      → (if b then x else y).0 ≡ ok tt
      → P (if b then x else y).1.database
  if-ok true x y P px py = px
  if-ok false x y P px py = py

  pub finish_operation-Finishes :
      (c : Connection)
      → (finish_operation id source state error c).0 ≡ ok tt
      → Finishes c.now c.database (finish_operation id source state error c).1.database
  unfolding finish_operation
  finish_operation-Finishes c =
      let body = finish_body id source state error in
      if-ok (not (finishes state error)) (err (rollback_operation_conflict id), c)
        (transaction body c) (Finishes c.now c.database) (λ h. cc)
        (λ h.
          finish_body-Finishes c.now c.database (transaction body c).1.database
            (transaction-ok body c h))

decode_found-some :
    (row : Option OperationRow) (operation : RollbackOperation)
    → decode_found row ≡ ok (some operation)
    → (found : OperationRow) × (row ≡ some found) × (decode_operation found ≡ ok operation)
unfolding decode_found
decode_found-some none operation h = cc
decode_found-some (some row) operation h =
    let (decoded, d, h) = bind-ok (decode_operation row) _ h in
    let same : decoded ≡ operation = ground arith in (row, refl, d ∙ ap ok same)

pub get_operation-row :
    (id : RollbackOperationId) (operation : RollbackOperation) (c : Connection)
    → get_operation id c ≡ ok (some operation)
    → (found : OperationRow) × (operation_row id c.database ≡ some found)
      × (decode_operation found ≡ ok operation)
unfolding get_operation
get_operation-row id operation c h =
    decode_found-some (operation_row id c.database) operation (query-ok _ c h)
