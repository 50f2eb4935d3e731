-- ===== src/Persistence/Recovery/Laws.antt =====
-- What recovery and an acknowledgement do to the database.
use deploy_mcp.Prelude.{
  ℕ, suc, String, ◌≡◌, refl, sym, ap, ◌∙◌, Bool, true, false, Option, none, some, List, [], ◌∷◌,
  ◌++◌, ok, any, find?, str_eq, eq_refl, if◌then◌else◌, is_some, arith, eq_iff, Bool-cases, inl,
  inr, ◌⊎◌,
}
use mathlib.Core.Path.{subst}
use deploy_mcp.Error.{Message}
use deploy_mcp.Domain.State.{failed, is_terminal}
use deploy_mcp.Domain.Deployment.{Deployment}
use deploy_mcp.Domain.Rollback.{RollbackOperation}
use deploy_mcp.Domain.Recovery.{
  RecoverySubjectKind, deployment, rollback_operation, RecoveryDisposition, auto_resolved,
  manual_reconciliation_required, RecoveryIncident, is_manual,
}
use deploy_mcp.Ports.{RepositoryResult}
use deploy_mcp.Persistence.Names.{state_name}
use deploy_mcp.Persistence.Schema.{
  Database, Connection, transaction, DeploymentRow, OperationRow, IncidentRow, deployment_row,
  unresolved_in, same_environment, is_active_row,
}
use deploy_mcp.Persistence.Schema.Laws.{transaction-ok, transaction-keeps}
use deploy_mcp.Persistence.Stored.{stored_state, row_state-named, stored_state-row}
use deploy_mcp.Persistence.Progress.{update_state}
use deploy_mcp.Persistence.Progress.Laws.{find?-update_state, updated}
use deploy_mcp.Persistence.Exclusive.{Exclusive, Exclusive-update_state}
use deploy_mcp.Persistence.Guarded.{
  Guarded, OneStarted, Apart, Fewer, OneStarted-Fewer, Apart-Fewer, Apart-update_state,
}
use deploy_mcp.Persistence.Recovery.{
  insert_incident, incident_of, new_incident, interrupted, recover_found, recover_body,
  recover_deployment, is_started_operation, fail_operations, recover_operation_body,
  recover_rollback_operation,
}

any-last :
    (p : IncidentRow → Bool) (rows : List IncidentRow) (row : IncidentRow)
    → p row ≡ true
    → any p (rows ++ row ∷ []) ≡ true
any-last p [] row h = ground arith
any-last p (r ∷ rows) row h = ground (arith, any-last p rows row)

new_incident-unresolved :
    (id : ℕ) (kind : RecoverySubjectKind) (subject a e previous : String) (reason : Message)
    (now : ℕ)
    → unresolved_in a e
        (new_incident id kind subject a e previous manual_reconciliation_required reason now)
      ≡ true
unfolding unresolved_in same_environment new_incident
new_incident-unresolved id kind subject a e previous reason now =
    ground (arith, eq_refl a, eq_refl e)

-- An insertion of an incident touches the incidents alone; a manual one blocks its environment.
pub insert_incident-blocks :
    (kind : RecoverySubjectKind) (subject a e previous : String) (disposition : RecoveryDisposition)
    (reason : Message) (now : ℕ) (db db' : Database) (i : Option RecoveryIncident)
    → insert_incident kind subject a e previous disposition reason now db ≡ ok (i, db')
    → (is_some i ≡ true)
      × (db'.deployments ≡ db.deployments)
      × (db'.rollback_operations ≡ db.rollback_operations)
      × (is_manual disposition ≡ true → any (unresolved_in a e) db'.recovery_incidents ≡ true)
unfolding insert_incident incident_of is_manual
insert_incident-blocks kind subject a e previous auto_resolved reason now db db' i h =
    (ground arith, ground arith, ground arith, λ m. ground arith)
insert_incident-blocks kind subject a e previous manual_reconciliation_required reason now db db' i
      h =
    (
      ground arith,
      ground arith,
      ground arith,
      λ m. ground (
        arith,
        any-last (unresolved_in a e) db.recovery_incidents
            (new_incident (suc db.incident_sequence) kind subject a e previous
              manual_reconciliation_required reason now)
            (new_incident-unresolved (suc db.incident_sequence) kind subject a e previous reason
              now),
      ),
    )

-- What a successful recovery of a deployment did: nothing, or it failed the deployment where it was in the
-- state that was read, and blocks the environment where the incident is manual.
recover_found-cases :
    (d : Deployment) (disposition : RecoveryDisposition) (reason : Message) (now : ℕ)
    (db db' : Database) (row : Option DeploymentRow) (i : Option RecoveryIncident)
    → recover_found d disposition reason now db row ≡ ok (i, db')
    → ((i ≡ none) × (db' ≡ db))
      ⊎ ((found : DeploymentRow) × (row ≡ some found)
          × (found.state ≡ state_name d.state)
          × (is_some i ≡ true)
          × (db'.deployments ≡ update_state d.id (state_name d.state) "failed" now db.deployments)
          × (db'.rollback_operations ≡ db.rollback_operations)
          × (is_manual disposition ≡ true
              → any (unresolved_in d.application d.environment) db'.recovery_incidents ≡ true))
unfolding recover_found interrupted
recover_found-cases d disposition reason now db db' none i h = inl (ground arith, ground arith)
recover_found-cases d disposition reason now db db' (some row) i h =
    elim (Bool-cases (str_eq row.state (state_name d.state))) [
      | inl same ↦
          let inserted : insert_incident deployment d.id d.application d.environment
                (state_name d.state) disposition reason now (interrupted d reason now db)
              ≡ ok (i, db') =
            ground arith in
          let (made, deployments, operations, blocks) =
            insert_incident-blocks deployment d.id d.application d.environment (state_name d.state)
              disposition reason now (interrupted d reason now db) db' i inserted in
          inr (
            row,
            refl,
            (eq_iff row.state (state_name d.state)).0 same,
            made,
            deployments,
            operations,
            blocks,
          )
      | inr other ↦ inl (ground arith, ground arith)
    ]

either : {A : Type 0} (P : A → Type 0) (b : Bool) (x y : A) → P x → P y → P (if b then x else y)
either P true x y px py = px
either P false x y px py = py

module _ (d : Deployment) (disposition : RecoveryDisposition) (reason : Message)
    (c : Connection) where
  -- What a call that ends with this result has stored, where it returns the incident.
  Closes : RecoveryIncident → RepositoryResult (Option RecoveryIncident) × Connection → Type 0
  Closes i r =
      r.0 ≡ ok (some i)
      → (stored_state d.id c.database ≡ some d.state)
        × (stored_state d.id r.1.database ≡ some failed)
        × (is_manual disposition ≡ true
            → any (unresolved_in d.application d.environment) r.1.database.recovery_incidents
              ≡ true)

  transaction-Closes :
      (i : RecoveryIncident) → Closes i (transaction (recover_body d disposition reason) c)
  unfolding Closes recover_body deployment_row state_name
  transaction-Closes i h =
      let after = (transaction (recover_body d disposition reason) c).1.database in
      elim (recover_found-cases d disposition reason c.now c.database after
        (deployment_row d.id c.database) (some i)
        (transaction-ok (recover_body d disposition reason) c h)) [
          | inl (nothing, same) ↦ cc
          | inr (row, found, at_state, made, rows, operations, blocks) ↦ (
            stored_state-row d.id c.database found ∙ row_state-named row d.state at_state,
            stored_state-row d.id after (
                  ap (find? (λ (r : DeploymentRow). str_eq r.id d.id)) rows
                  ∙ find?-update_state d.id (state_name d.state) "failed" c.now
                      c.database.deployments found at_state)
                ∙ row_state-named (updated "failed" c.now row) failed refl,
            blocks,
          )
        ]

  -- A recovery that returns an incident has failed the deployment in the store, which held it in the state
  -- that was read; where the disposition is manual, its environment has an unresolved incident.
  pub recover_deployment-closes :
      (i : RecoveryIncident)
      → (recover_deployment d disposition reason c).0 ≡ ok (some i)
      → (stored_state d.id c.database ≡ some d.state)
        × (stored_state d.id (recover_deployment d disposition reason c).1.database ≡ some failed)
        × (is_manual disposition ≡ true
            → any
                (unresolved_in d.application d.environment)
                (recover_deployment d disposition reason c).1.database.recovery_incidents
              ≡ true)
  unfolding recover_deployment Closes
  recover_deployment-closes i =
      either (Closes i) (is_terminal d.state) (ok none, c)
        (transaction (recover_body d disposition reason) c) (λ h. cc) (transaction-Closes i)

  recover_found-Guarded :
      (now : ℕ) (db db' : Database) (i : Option RecoveryIncident)
      → Guarded db
      → recover_found d disposition reason now db (deployment_row d.id db) ≡ ok (i, db')
      → Guarded db'
  unfolding deployment_row is_active_row
  recover_found-Guarded now db db' i (exclusive, one, apart) h =
      elim (recover_found-cases d disposition reason now db db' (deployment_row d.id db) i h) [
        | inl (nothing, same) ↦ subst Guarded (sym same) (exclusive, one, apart)
        | inr (row, found, at_state, made, rows, operations, blocks) ↦ (
          subst Exclusive (sym rows) (
              Exclusive-update_state d.id (state_name d.state) "failed" now db.deployments row
                exclusive found (λ inactive t. cc)),
          subst OneStarted (sym operations) one,
          subst (λ os. Apart os db'.deployments) (sym operations)
              (subst (Apart db.rollback_operations) (sym rows) (
                Apart-update_state d.id (state_name d.state) "failed" now db.rollback_operations
                  db.deployments row (λ t. cc) found apart)),
        )
      ]

  pub recover_deployment-Guarded :
      Guarded c.database → Guarded (recover_deployment d disposition reason c).1.database
  unfolding recover_deployment recover_body
  recover_deployment-Guarded g =
      either (λ (r : RepositoryResult (Option RecoveryIncident) × Connection). Guarded r.1.database)
        (is_terminal d.state) (ok none, c) (transaction (recover_body d disposition reason) c) g
        (transaction-keeps (recover_body d disposition reason) c Guarded
          (λ i db' h. recover_found-Guarded c.now c.database db' i g h) g)

fail_operations-Fewer :
    (id : String) (reason : Message) (now : ℕ) (rows : List OperationRow)
    → Fewer rows (fail_operations id reason now rows)
unfolding fail_operations
fail_operations-Fewer id reason now [] = tt
fail_operations-Fewer id reason now (row ∷ rows) =
    (ground arith, ground arith, ground arith, fail_operations-Fewer id reason now rows)

recover_operation_body-Guarded :
    (operation : RollbackOperation) (reason : Message) (now : ℕ) (db db' : Database)
    (i : Option RecoveryIncident)
    → Guarded db
    → recover_operation_body operation reason now db ≡ ok (i, db')
    → Guarded db'
unfolding recover_operation_body
recover_operation_body-Guarded operation reason now db db' i (exclusive, one, apart) h =
    elim (Bool-cases (any (is_started_operation operation.id) db.rollback_operations)) [
      | inl running ↦
          let (made, deployments, operations, blocks) =
            insert_incident-blocks rollback_operation operation.id operation.application
              operation.environment "started" manual_reconciliation_required reason now
              (record db {
                rollback_operations =
                    fail_operations operation.id reason now db.rollback_operations;
              })
              db' i (ground arith) in
          let fewer = fail_operations-Fewer operation.id reason now db.rollback_operations in
          (
            subst Exclusive (sym deployments) exclusive,
            subst OneStarted (sym operations) (OneStarted-Fewer db.rollback_operations _ fewer one),
            subst (λ rows. Apart db'.rollback_operations rows) (sym deployments)
                (subst (λ os. Apart os db.deployments) (sym operations)
                  (Apart-Fewer db.rollback_operations _ db.deployments fewer apart)),
          )
      | inr idle ↦ let same : db ≡ db' = ground arith in subst Guarded same (exclusive, one, apart)
    ]

pub recover_rollback_operation-Guarded :
    (operation : RollbackOperation) (reason : Message) (c : Connection)
    → Guarded c.database
    → Guarded (recover_rollback_operation operation reason c).1.database
unfolding recover_rollback_operation
recover_rollback_operation-Guarded operation reason c g =
    transaction-keeps (recover_operation_body operation reason) c Guarded
      (λ i db' h. recover_operation_body-Guarded operation reason c.now c.database db' i g h) g
