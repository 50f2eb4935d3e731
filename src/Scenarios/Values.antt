-- ===== src/Scenarios/Values.antt =====
-- The theorems on the domain values and on their names at concrete inputs.
use deploy_mcp.Prelude.{◌↔◌, ℕ, ◌≡◌, ◌≤◌, ◌≢◌, ◌⊎◌, refl, true, false, ok}
use deploy_mcp.Text.{all_chars, is_ascii_hexdigit, is_whitespace, is_blank, to_ascii_lowercase}
use deploy_mcp.Error.{as_str-injective, operation_timed_out}
use deploy_mcp.Domain.State.{
  DeploymentState, can_transition_to, has_live_mutation_started, is_terminal,
  has_live_artifact_replacement_started,
}
use deploy_mcp.Domain.State
use deploy_mcp.Domain.State.Graph.{
  Reaches, here, steps, steps-le, is_terminal_iff, has_live_mutation_started-step,
}
use deploy_mcp.Domain.Release.{artifact_new, is_checksum}
use deploy_mcp.Domain.Release.Laws.{artifact_new_iff, artifact_new-stored}
use deploy_mcp.Domain.Deployment.{fail}
use deploy_mcp.Domain.Deployment.Laws.{fail_lem}
use deploy_mcp.Persistence.Names.{
  parse_state-state_name, is_terminal_name-state_name, parse_state, state_name, is_terminal_name,
}
use deploy_mcp.Scenarios.{checksum, jar, first}

first_step : Reaches State.created State.prechecking
unfolding can_transition_to
first_step = Reaches.step here refl

steps-le_example : steps first_step ≤ 8
steps-le_example = steps-le first_step

is_terminal_iff_example :
    (is_terminal State.verifying ≡ true
      → (t : DeploymentState) → can_transition_to State.verifying t ≡ false)
    × (is_terminal State.verifying ≡ false
        → (t : DeploymentState) × (can_transition_to State.verifying t ≡ true))
is_terminal_iff_example = is_terminal_iff State.verifying

has_live_mutation_started-step_example :
    (has_live_mutation_started State.rolling_back ≡ true)
    ⊎ ((State.rolling_back ≡ State.succeeded) ⊎ (State.rolling_back ≡ State.failed))
unfolding can_transition_to has_live_mutation_started
has_live_mutation_started-step_example =
    has_live_mutation_started-step State.verifying State.rolling_back refl refl

fail_lem_example :
    fail (record first { state = State.verifying }) true
    ≡ ok (record first { state = State.rolling_back })
unfolding has_live_artifact_replacement_started is_terminal
fail_lem_example = fail_lem (record first { state = State.verifying }) true

artifact_new_iff_example : (artifact_new "1.4.0" 3 checksum ≡ ok jar) ↔ (
    (is_blank "1.4.0" ≡ false)
    × (◌≢◌ {A = ℕ} 3 0)
    × (is_checksum checksum ≡ true)
    × (jar ≡ record { version = "1.4.0"; size_bytes = 3; sha256 = to_ascii_lowercase checksum }))
artifact_new_iff_example = artifact_new_iff "1.4.0" 3 checksum jar

artifact_new-stored_example : artifact_new "1.4.0" 3 checksum ≡ ok jar
unfolding artifact_new is_blank is_whitespace is_checksum all_chars is_ascii_hexdigit
    to_ascii_lowercase
artifact_new-stored_example = artifact_new-stored "1.4.0" 3 checksum jar refl

parse_state-state_name_example : parse_state (state_name State.rolling_back) ≡ ok State.rolling_back
parse_state-state_name_example = parse_state-state_name State.rolling_back

is_terminal_name-state_name_example :
    is_terminal_name (state_name State.rolled_back) ≡ is_terminal State.rolled_back
is_terminal_name-state_name_example = is_terminal_name-state_name State.rolled_back

as_str-injective_example : operation_timed_out ≡ operation_timed_out
as_str-injective_example = as_str-injective operation_timed_out operation_timed_out refl
