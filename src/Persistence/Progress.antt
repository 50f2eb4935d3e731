-- ===== src/Persistence/Progress.antt =====
-- src/persistence.rs: `persist_transition` and `transitions`.
pub mod Laws
pub mod Keeps
use deploy_mcp.Prelude.{
  ℕ, ◌+◌, ◌^◌, String, Bool, not, ◌&&◌, ◌||◌, Option, none, some, List, [], ◌∷◌, ◌++◌, ok, err, any,
  filter, str_eq, ◌==◌, if◌then◌else◌,
}
use deploy_mcp.Error.{plain}
use deploy_mcp.Domain.State.{DeploymentState}
use deploy_mcp.Domain.Release.{DeploymentId}
use deploy_mcp.Ports.{DeploymentTransition, RepositoryResult, storage, not_found, state_conflict}
use deploy_mcp.Persistence.Names.{state_name, parse_state, is_terminal_name}
use deploy_mcp.Persistence.Schema.{
  DeploymentRow, TransitionRow, Database, Connection, transaction, query, active_in, deployment_row,
}
use deploy_mcp.Persistence.Insert.{◌>>=◌, ◌>>◌}

-- `UPDATE deployments SET state = ?1, updated_at_unix_ms = ?2 WHERE id = ?3 AND state = ?4`; the
-- identifier is the primary key, so no row after the first that has it is matched.
unfoldable pub update_state : String → String → String → ℕ → List DeploymentRow → List DeploymentRow
update_state id from to now [] = []
update_state id from to now (row ∷ rows) =
    let rest = update_state id from to now rows in
    if str_eq row.id id
    then (if str_eq row.state from
        then record row { state = to; updated_at_unix_ms = now }
        else row)
      ∷ rows
    else row ∷ rest

-- The update would make a second active deployment of its environment.
pub update_violation : String → DeploymentRow → List DeploymentRow → Bool
update_violation to row rows =
    is_terminal_name row.state
    && not (is_terminal_name to)
    && any (active_in row.application_id row.environment_id) rows

-- The database after the update of the row, with the transition recorded.
pub moved : DeploymentId → DeploymentState → DeploymentState → ℕ → Database → Database
moved id from to now db = record db {
  deployments = update_state id (state_name from) (state_name to) now db.deployments;
  transitions =
      db.transitions
      ++ record {
        deployment_id = id;
        from_state = state_name from;
        to_state = state_name to;
        occurred_at_unix_ms = now;
      }
        ∷ [];
}

pub persist_in :
    DeploymentId
    → DeploymentState
    → DeploymentState
    → ℕ
    → Database
    → Option DeploymentRow
    → RepositoryResult ((Unit {0}) × Database)
unfolding update_violation moved
persist_in id from to now db none = err (not_found id)
persist_in id from to now db (some row) =
    if not (str_eq row.state (state_name from))
    then err (state_conflict id from)
    else if update_violation (state_name to) row db.deployments
    then err (storage (plain "UNIQUE constraint failed"))
    else ok (tt, moved id from to now db)

persist_body :
    DeploymentId
    → DeploymentState
    → DeploymentState
    → ℕ
    → Database
    → RepositoryResult ((Unit {0}) × Database)
unfolding persist_in
persist_body id from to now db = persist_in id from to now db (deployment_row id db)

unfoldable pub persist_transition :
    DeploymentId
    → DeploymentState
    → DeploymentState
    → Connection
    → RepositoryResult (Unit {0}) × Connection
unfolding persist_body
persist_transition id from to = transaction (persist_body id from to)

decode_transitions : List TransitionRow → RepositoryResult (List DeploymentTransition)
decode_transitions [] = ok []
decode_transitions (row ∷ rows) = do
  from ← parse_state row.from_state
  to ← parse_state row.to_state
  rest ← decode_transitions rows
  ok (record { from = from; to = to; occurred_at_unix_ms = row.occurred_at_unix_ms } ∷ rest)

pub transitions : DeploymentId → Connection → RepositoryResult (List DeploymentTransition)
transitions id = query (λ db.
    decode_transitions
      (filter (λ (row : TransitionRow). str_eq row.deployment_id id) db.transitions))
