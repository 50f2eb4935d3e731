-- ===== src/Persistence/Progress/Keeps.antt =====
-- A transition of a deployment keeps the exclusivity of active rows.
use deploy_mcp.Prelude.{
  String, ◌≡◌, ap, ◌∙◌, sym, true, false, not, List, any, arith, Bool-cases, inl, inr,
}
use mathlib.Core.Path.{subst}
use deploy_mcp.Domain.State.{DeploymentState, can_transition_to, is_terminal}
use deploy_mcp.Domain.State.Graph.{is_terminal_iff}
use deploy_mcp.Domain.Release.{DeploymentId}
use deploy_mcp.Persistence.Names.{state_name, is_terminal_name, is_terminal_name-state_name}
use deploy_mcp.Persistence.Schema.{
  Connection, DeploymentRow, is_active_row, active_in, deployment_row,
}
use deploy_mcp.Persistence.Schema.Laws.{transaction-keeps}
use deploy_mcp.Persistence.Exclusive.{Exclusive, Exclusive-update_state}
use deploy_mcp.Persistence.Guarded.{Guarded, Apart-update_state}
use deploy_mcp.Persistence.Progress.{update_violation, moved, persist_body, persist_transition}
use deploy_mcp.Persistence.Progress.Laws.{persist_in-moved}

update_violation-free :
    (to : String) (row : DeploymentRow) (rows : List DeploymentRow)
    → update_violation to row rows ≡ false
    → is_active_row row ≡ false
    → is_terminal_name to ≡ false
    → any (active_in row.application_id row.environment_id) rows ≡ false
unfolding update_violation is_active_row
update_violation-free to row rows h a t = ground arith

pub persist_transition-Exclusive :
    (id : DeploymentId) (from to : DeploymentState) (c : Connection)
    → Exclusive c.database.deployments
    → Exclusive (persist_transition id from to c).1.database.deployments
unfolding persist_transition persist_body moved deployment_row
persist_transition-Exclusive id from to c x =
    transaction-keeps (persist_body id from to) c (λ db. Exclusive db.deployments)
      (λ u db' h.
        let (row, found, s, free, same) =
          persist_in-moved id from to c.now c.database db' (deployment_row id c.database) h in
        subst (λ db. Exclusive db.deployments) (sym same)
          (Exclusive-update_state id (state_name from) (state_name to) c.now c.database.deployments
            row x found (update_violation-free (state_name to) row c.database.deployments free)))
      x

-- A state that a transition leaves is not terminal.
nonterminal :
    (from to : DeploymentState)
    → can_transition_to from to ≡ true
    → is_terminal_name (state_name from) ≡ false
nonterminal from to h = elim (Bool-cases (is_terminal from)) [
  | inl t ↦ let no = (is_terminal_iff from).0 t to in cc
  | inr n ↦ is_terminal_name-state_name from ∙ n
]

pub persist_transition-Guarded :
    (id : DeploymentId) (from to : DeploymentState) (c : Connection)
    → can_transition_to from to ≡ true
    → Guarded c.database
    → Guarded (persist_transition id from to c).1.database
unfolding persist_transition persist_body moved deployment_row is_active_row
persist_transition-Guarded id from to c allowed (exclusive, one, apart) =
    transaction-keeps (persist_body id from to) c Guarded
      (λ u db' h.
        let (row, found, s, free, same) =
          persist_in-moved id from to c.now c.database db' (deployment_row id c.database) h in
        let active : is_active_row row ≡ true =
          ap (λ t. not (is_terminal_name t)) s ∙ ap not (nonterminal from to allowed) in
        subst Guarded (sym same) (
          Exclusive-update_state id (state_name from) (state_name to) c.now c.database.deployments
              row exclusive found (λ inactive t. cc),
          one,
          Apart-update_state id (state_name from) (state_name to) c.now
              c.database.rollback_operations c.database.deployments row (λ t. active) found apart,
        ))
      (exclusive, one, apart)
