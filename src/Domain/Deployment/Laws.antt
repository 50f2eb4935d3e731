-- ===== src/Domain/Deployment/Laws.antt =====
-- How `transition` and `fail` change a deployment, in every state.
use deploy_mcp.Prelude.{◌≡◌, Bool, true, false, ◌&&◌, ok, err, arith, if◌then◌else◌}
use deploy_mcp.Domain.State.{
  DeploymentState, created, failed, rolling_back, can_transition_to, is_terminal,
  has_live_artifact_replacement_started,
}
use deploy_mcp.Domain.Release.{invalid_transition}
use deploy_mcp.Domain.Deployment.{Deployment, transition, fail}

-- `transition` changes nothing but the state, and only along the matrix.
pub transition-ok :
    (d d' : Deployment) (next : DeploymentState)
    → transition d next ≡ ok d'
    → (d' ≡ record d { state = next }) × (can_transition_to d.state next ≡ true)
unfolding transition
transition-ok d d' next h = ground arith

-- A failure is refused in `created`, `rolling_back` and the terminal states.
abbrev pub takes_failure : DeploymentState → Bool
takes_failure created = false
takes_failure rolling_back = false
takes_failure s = if is_terminal s then false else true

-- `fail` enters the rollback exactly when a live artifact may have been replaced and a rollback is
-- available, records a plain failure in the other running states, and is refused in `created`,
-- `rolling_back` and the terminal states.
pub fail_lem :
    (d : Deployment) (available : Bool)
    → fail d available ≡ (
        if takes_failure d.state
        then ok (record d {
          state =
              if has_live_artifact_replacement_started d.state && available
              then rolling_back
              else failed;
        })
        else err (
            invalid_transition d.state (
              if has_live_artifact_replacement_started d.state && available
              then rolling_back
              else failed)))
unfolding fail can_transition_to is_terminal has_live_artifact_replacement_started
fail_lem d available = ground arith
