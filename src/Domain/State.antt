-- ===== src/Domain/State.antt =====
-- src/domain/deployment.rs: `DeploymentState` and its transition matrix.
pub mod Graph
use deploy_mcp.Prelude.{Bool, true, false}

pub data DeploymentState : Type 0 where
  created prechecking staging_artifact backing_up installing restarting : DeploymentState
  verifying succeeded failed rolling_back rolled_back rollback_failed : DeploymentState

unfoldable pub can_transition_to : DeploymentState → DeploymentState → Bool
can_transition_to created prechecking = true
can_transition_to prechecking staging_artifact = true
can_transition_to prechecking failed = true
can_transition_to staging_artifact backing_up = true
can_transition_to staging_artifact failed = true
can_transition_to backing_up installing = true
can_transition_to backing_up failed = true
can_transition_to installing restarting = true
can_transition_to installing rolling_back = true
can_transition_to installing failed = true
can_transition_to restarting verifying = true
can_transition_to restarting rolling_back = true
can_transition_to restarting failed = true
can_transition_to verifying succeeded = true
can_transition_to verifying rolling_back = true
can_transition_to verifying failed = true
can_transition_to rolling_back rolled_back = true
can_transition_to rolling_back rollback_failed = true
can_transition_to _ _ = false

-- A remote operation with side effects may have started.
unfoldable pub has_live_mutation_started : DeploymentState → Bool
has_live_mutation_started staging_artifact = true
has_live_mutation_started backing_up = true
has_live_mutation_started installing = true
has_live_mutation_started restarting = true
has_live_mutation_started verifying = true
has_live_mutation_started rolling_back = true
has_live_mutation_started rolled_back = true
has_live_mutation_started rollback_failed = true
has_live_mutation_started _ = false

unfoldable pub has_live_artifact_replacement_started : DeploymentState → Bool
has_live_artifact_replacement_started installing = true
has_live_artifact_replacement_started restarting = true
has_live_artifact_replacement_started verifying = true
has_live_artifact_replacement_started rolling_back = true
has_live_artifact_replacement_started rolled_back = true
has_live_artifact_replacement_started rollback_failed = true
has_live_artifact_replacement_started _ = false

unfoldable pub is_terminal : DeploymentState → Bool
is_terminal succeeded = true
is_terminal failed = true
is_terminal rolled_back = true
is_terminal rollback_failed = true
is_terminal _ = false

-- The derived `==` on states.
unfoldable pub state_eq : DeploymentState → DeploymentState → Bool
state_eq created created = true
state_eq prechecking prechecking = true
state_eq staging_artifact staging_artifact = true
state_eq backing_up backing_up = true
state_eq installing installing = true
state_eq restarting restarting = true
state_eq verifying verifying = true
state_eq succeeded succeeded = true
state_eq failed failed = true
state_eq rolling_back rolling_back = true
state_eq rolled_back rolled_back = true
state_eq rollback_failed rollback_failed = true
state_eq _ _ = false
