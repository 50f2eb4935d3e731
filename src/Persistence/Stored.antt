-- ===== src/Persistence/Stored.antt =====
-- The state of a deployment as the database holds it.
use deploy_mcp.Prelude.{◌≡◌, ap, ◌∙◌, Option, none, some, ok, err}
use deploy_mcp.Ports.{RepositoryResult}
use deploy_mcp.Domain.State.{DeploymentState}
use deploy_mcp.Domain.Release.{DeploymentId}
use deploy_mcp.Persistence.Names.{state_name, parse_state, parse_state-state_name}
use deploy_mcp.Persistence.Schema.{DeploymentRow, Database, deployment_row}

parsed : RepositoryResult DeploymentState → Option DeploymentState
parsed (ok s) = some s
parsed (err e) = none

unfoldable pub row_state : Option DeploymentRow → Option DeploymentState
unfolding parsed
row_state none = none
row_state (some row) = parsed (parse_state row.state)

unfoldable pub stored_state : DeploymentId → Database → Option DeploymentState
unfolding row_state
stored_state id db = row_state (deployment_row id db)

pub row_state-parsed :
    (row : DeploymentRow) {s : DeploymentState}
    → parse_state row.state ≡ ok s
    → row_state (some row) ≡ some s
unfolding row_state
row_state-parsed row h = ap parsed h

pub row_state-named :
    (row : DeploymentRow) (s : DeploymentState)
    → row.state ≡ state_name s
    → row_state (some row) ≡ some s
row_state-named row s h = row_state-parsed row (ap parse_state h ∙ parse_state-state_name s)

pub stored_state-row :
    (id : DeploymentId) (db : Database) {row : Option DeploymentRow}
    → deployment_row id db ≡ row
    → stored_state id db ≡ row_state row
unfolding stored_state
stored_state-row id db h = ap row_state h
