-- ===== src/Domain/State/Graph.antt =====
-- The transition matrix of `DeploymentState` as a graph: its ranks, its sinks and its paths.
use deploy_mcp.Prelude.{ℕ, suc, ◌+◌, ◌≤◌, ◌<◌, ◌≡◌, refl, true, false, ◌⊎◌, arith}
use deploy_mcp.Domain.State.{
  DeploymentState, created, prechecking, staging_artifact, backing_up, installing, restarting,
  verifying, succeeded, failed, rolling_back, rolled_back, rollback_failed, can_transition_to,
  has_live_mutation_started, has_live_artifact_replacement_started, is_terminal, state_eq,
}

-- A sequence of transitions that the matrix allows.
pub data Reaches : DeploymentState → DeploymentState → Type 0 where
  here : {s : DeploymentState} → Reaches s s
  step : {s t u : DeploymentState} → Reaches s t → can_transition_to t u ≡ true → Reaches s u

pub steps : {s t : DeploymentState} → Reaches s t → ℕ
steps here = 0
steps (step r e) = suc (steps r)

-- How far a state stands from `created`.
abbrev rank : DeploymentState → ℕ
rank created = 0
rank prechecking = 1
rank staging_artifact = 2
rank backing_up = 3
rank installing = 4
rank restarting = 5
rank verifying = 6
rank rolling_back = 7
rank _ = 8

rank-can_transition_to : (s t : DeploymentState) → can_transition_to s t ≡ true → rank s < rank t
unfolding can_transition_to
rank-can_transition_to s t h = ground arith

rank-le : (s : DeploymentState) → rank s ≤ 8
rank-le s = ground arith

rank-Reaches : {s t : DeploymentState} (r : Reaches s t) → rank s + steps r ≤ rank t
unfolding steps
rank-Reaches here = omega arith
rank-Reaches (step {t = t} {u = u} r e) =
    omega (arith, rank-Reaches r, rank-can_transition_to t u e)

-- Every sequence of transitions ends: from any state at most eight can follow one another.
pub steps-le : {s t : DeploymentState} (r : Reaches s t) → steps r ≤ 8
steps-le {t = t} r = omega (arith, rank-Reaches r, rank-le t)

-- A state is terminal exactly when it has no transition to any state.
pub is_terminal_iff :
    (s : DeploymentState)
    → (is_terminal s ≡ true → (t : DeploymentState) → can_transition_to s t ≡ false)
      × (is_terminal s ≡ false → (t : DeploymentState) × (can_transition_to s t ≡ true))
unfolding is_terminal can_transition_to
is_terminal_iff created = (λ h. cc, λ h. (prechecking, refl))
is_terminal_iff prechecking = (λ h. cc, λ h. (failed, refl))
is_terminal_iff staging_artifact = (λ h. cc, λ h. (failed, refl))
is_terminal_iff backing_up = (λ h. cc, λ h. (failed, refl))
is_terminal_iff installing = (λ h. cc, λ h. (failed, refl))
is_terminal_iff restarting = (λ h. cc, λ h. (failed, refl))
is_terminal_iff verifying = (λ h. cc, λ h. (failed, refl))
is_terminal_iff rolling_back = (λ h. cc, λ h. (rolled_back, refl))
is_terminal_iff succeeded = (λ h t. refl, λ h. cc)
is_terminal_iff failed = (λ h t. refl, λ h. cc)
is_terminal_iff rolled_back = (λ h t. refl, λ h. cc)
is_terminal_iff rollback_failed = (λ h t. refl, λ h. cc)

succeeded-step : (t : DeploymentState) → can_transition_to t succeeded ≡ true → t ≡ verifying
unfolding can_transition_to
succeeded-step t h = ground arith

rolled_back-step : (t : DeploymentState) → can_transition_to t rolled_back ≡ true → t ≡ rolling_back
unfolding can_transition_to
rolled_back-step t h = ground arith

-- Once set, the mark of a possible remote side effect stays set until the deployment ends as
-- `succeeded` or `failed`.
pub has_live_mutation_started-step :
    (s t : DeploymentState)
    → can_transition_to s t ≡ true
    → has_live_mutation_started s ≡ true
    → (has_live_mutation_started t ≡ true) ⊎ ((t ≡ succeeded) ⊎ (t ≡ failed))
unfolding can_transition_to has_live_mutation_started
has_live_mutation_started-step s t h m = ground arith

-- The live artifact is replaced only where remote side effects are possible.
pub replacement-mutation :
    (s : DeploymentState)
    → has_live_artifact_replacement_started s ≡ true
    → has_live_mutation_started s ≡ true
unfolding has_live_mutation_started has_live_artifact_replacement_started
replacement-mutation s h = ground arith

pub state_eq→eq : (s t : DeploymentState) → state_eq s t ≡ true → s ≡ t
unfolding state_eq
state_eq→eq s t h = ground arith

pub state_eq_self : (s : DeploymentState) → state_eq s s ≡ true
unfolding state_eq
state_eq_self s = ground arith
