-- ===== src/Persistence/Progress/Laws.antt =====
-- `persist_transition` moves exactly the deployment that is in the expected state.
use deploy_mcp.Prelude.{
  ℕ, String, ◌≡◌, refl, ap, ◌∙◌, false, Option, none, some, List, [], ◌∷◌, ok, err, find?, str_eq,
  arith, eq_iff,
}
use deploy_mcp.Ports.{RepositoryError}
use deploy_mcp.Domain.State.{DeploymentState}
use deploy_mcp.Domain.Release.{DeploymentId}
use deploy_mcp.Persistence.Names.{state_name}
use deploy_mcp.Persistence.Schema.{Database, Connection, DeploymentRow, deployment_row}
use deploy_mcp.Persistence.Schema.Laws.{transaction-ok, transaction-err}
use deploy_mcp.Persistence.Stored.{stored_state, row_state-named, stored_state-row}
use deploy_mcp.Persistence.Progress.{
  update_state, update_violation, moved, persist_in, persist_body, persist_transition,
}

abbrev pub updated : String → ℕ → DeploymentRow → DeploymentRow
updated to now row = record row { state = to; updated_at_unix_ms = now }

pub find?-update_state :
    (id from to : String) (now : ℕ) (rows : List DeploymentRow) {row : DeploymentRow}
    → find? (λ row. str_eq row.id id) rows ≡ some row
    → row.state ≡ from
    → find? (λ row. str_eq row.id id) (update_state id from to now rows) ≡ some (updated to now row)
unfolding update_state
find?-update_state id from to now [] h s = cc
find?-update_state id from to now (r ∷ rows) {row} h s =
    ground (arith, eq_iff r.state from, find?-update_state id from to now rows {row = row})

pub persist_in-moved :
    (id : DeploymentId) (from to : DeploymentState) (now : ℕ) (db db' : Database)
    (row : Option DeploymentRow)
    → persist_in id from to now db row ≡ ok (tt, db')
    → (found : DeploymentRow) × (row ≡ some found)
      × (found.state ≡ state_name from)
      × (update_violation (state_name to) found db.deployments ≡ false)
      × (db' ≡ moved id from to now db)
unfolding persist_in
persist_in-moved id from to now db db' none h = cc
persist_in-moved id from to now db db' (some row) h =
    (row, refl, ground (arith, eq_iff row.state (state_name from)), ground arith, ground arith)

-- The deployment was in the expected state and is in the new one, where `persist_transition` succeeds.
pub persist_transition-moves :
    (id : DeploymentId) (from to : DeploymentState) (c : Connection)
    → (persist_transition id from to c).0 ≡ ok tt
    → (stored_state id c.database ≡ some from)
      × (stored_state id (persist_transition id from to c).1.database ≡ some to)
unfolding persist_transition persist_body deployment_row moved
persist_transition-moves id from to c h =
    let (row, found, s, free, same) =
      persist_in-moved id from to c.now c.database (persist_transition id from to c).1.database
        (deployment_row id c.database) (transaction-ok (persist_body id from to) c h) in
    (
      stored_state-row id c.database found ∙ row_state-named row from s,
      ap (stored_state id) same
          ∙ stored_state-row id (moved id from to c.now c.database) (
              find?-update_state id (state_name from) (state_name to) c.now c.database.deployments
                found s)
          ∙ row_state-named (updated (state_name to) c.now row) to refl,
    )

pub persist_transition-keeps :
    (id : DeploymentId) (from to : DeploymentState) (c : Connection) {e : RepositoryError}
    → (persist_transition id from to c).0 ≡ err e
    → (persist_transition id from to c).1.database ≡ c.database
unfolding persist_transition
persist_transition-keeps id from to c h = transaction-err (persist_body id from to) c h
