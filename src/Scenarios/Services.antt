-- ===== src/Scenarios/Services.antt =====
-- The theorems on the services and on the repository at concrete inputs.
use deploy_mcp.Prelude.{
  String, ◌≡◌, refl, true, false, none, some, List, [], ◌∷◌, ok, any, is_empty, if◌then◌else◌,
}
use deploy_mcp.Text.{all_chars, is_ascii_hexdigit, to_ascii_lowercase, is_whitespace, is_blank}
use deploy_mcp.Domain.State.{
  DeploymentState, can_transition_to, has_live_mutation_started, is_terminal,
  has_live_artifact_replacement_started,
}
use deploy_mcp.Domain.State
use deploy_mcp.Domain.Release.{artifact_new, is_checksum, local_file, jar_systemd}
use deploy_mcp.Domain.Deployment.{fail}
use deploy_mcp.Domain.Plan.{DeploymentStep, generic, requires_rollback_after_failure}
use deploy_mcp.Domain.Plan.Boundary.{fail-requires_rollback}
use deploy_mcp.Ports.{created}
use deploy_mcp.Application.Lock.{
  try_acquire, release, is_active, key_eq, try_acquire-release, try_acquire_other,
}
use deploy_mcp.Application.Artifact.{canonical_roots, resolve_allowed_artifact_path}
use deploy_mcp.Application.Artifact.Laws.{resolve_allowed_artifact_path-ok}
use deploy_mcp.Application.Deploy.Run.Phase.{Settled}
use deploy_mcp.Persistence.Names.{state_name, is_terminal_name}
use deploy_mcp.Persistence.Schema.{transaction, is_active_row, metadata_row, deployment_row}
use deploy_mcp.Persistence.Stored.{stored_state}
use deploy_mcp.Persistence.Insert.{insert_violation, new_row}
use deploy_mcp.Persistence.Reserve.{reserve}
use deploy_mcp.Persistence.Decode.{get}
use deploy_mcp.Persistence.Reserve.Readback.{reserve-get, Answered, reserve-Answered}
use deploy_mcp.Text.{char_count}
use deploy_mcp.Persistence.Progress.{persist_transition}
use deploy_mcp.Persistence.Progress.Laws.{persist_transition-moves}
use deploy_mcp.Persistence.Exclusive.{Exclusive}
use deploy_mcp.Persistence.Deployments.History.{
  Call, reserving, moving, after_calls, after_calls-Exclusive,
}
use deploy_mcp.Scenarios.{jar, jar, codec, config, fs, connection, first, first_row, plan}

reserve-Answered_example :
    Answered codec first jar created
      (reserve codec first (some "build-17") (connection [])).1.database
unfolding reserve transaction insert_violation new_row deployment_row is_active_row state_name
    metadata_row char_count
reserve-Answered_example =
    reserve-Answered codec first (some "build-17") (connection []) jar created refl refl

persist_transition-moves_example :
    (stored_state "d-1" (connection (first_row ∷ [])).database ≡ some State.created)
    × (stored_state "d-1"
          (persist_transition "d-1" State.created State.prechecking
            (connection (first_row ∷ []))).1.database
        ≡ some State.prechecking)
unfolding persist_transition transaction deployment_row state_name is_terminal_name
persist_transition-moves_example =
    persist_transition-moves "d-1" State.created State.prechecking (connection (first_row ∷ []))
      refl

fail-requires_rollback_example :
    fail (record first { state = State.restarting }) true
    ≡ ok (record first {
      state =
          if requires_rollback_after_failure plan DeploymentStep.restart
          then State.rolling_back
          else State.failed;
    })
unfolding generic is_blank is_whitespace
fail-requires_rollback_example =
    fail-requires_rollback "d-1" "host-1" jar_systemd (local_file jar) true plan
      DeploymentStep.restart (record first { state = State.restarting }) refl refl

try_acquire-release_example :
    (try_acquire ("shop", "staging") (("shop", "staging") ∷ ("shop", "live") ∷ []) ≡ none)
    × (release ("shop", "staging") (("shop", "staging") ∷ ("shop", "live") ∷ [])
        ≡ ("shop", "live") ∷ [])
unfolding try_acquire
try_acquire-release_example =
    try_acquire-release ("shop", "staging") (("shop", "live") ∷ [])
      (("shop", "staging") ∷ ("shop", "live") ∷ []) refl

try_acquire_other_example :
    is_active ("shop", "live") (("shop", "staging") ∷ []) ≡ is_active ("shop", "live") []
unfolding try_acquire key_eq
try_acquire_other_example =
    try_acquire_other ("shop", "staging") ("shop", "live") [] (("shop", "staging") ∷ []) refl refl

resolve_allowed_artifact_path-ok_example :
    (is_empty config.local_artifacts.allowed_roots ≡ false)
    × ((allowed : List String) × (canonical_roots fs config.local_artifacts.allowed_roots
          ≡ ok allowed)
        × (fs.canonicalize "/builds/app.jar" ≡ some "/builds/app.jar")
        × (any (fs.starts_with "/builds/app.jar") allowed ≡ true)
        × (fs.is_utf8 "/builds/app.jar" ≡ true))
unfolding resolve_allowed_artifact_path is_blank is_whitespace canonical_roots
resolve_allowed_artifact_path-ok_example =
    resolve_allowed_artifact_path-ok fs config.local_artifacts "/builds/app.jar" "/builds/app.jar"
      refl

-- Two requests for one environment, and the progress of the first.
abbrev rush : List Call
rush =
    reserving first (some "build-17")
    ∷ moving "d-1" State.created State.prechecking
    ∷ reserving (record first { id = "d-2" }) none
    ∷ []

after_calls-Exclusive_example :
    Exclusive (after_calls codec rush (connection [])).database.deployments
after_calls-Exclusive_example = after_calls-Exclusive codec rush (connection []) tt

reserve-get_example :
    get codec "d-1"
      (record (reserve codec first (some "build-17") (connection [])).1 { faults = [] })
    ≡ ok (some first)
unfolding reserve transaction insert_violation new_row deployment_row is_active_row state_name
    metadata_row artifact_new is_blank is_whitespace is_checksum all_chars is_ascii_hexdigit
    to_ascii_lowercase char_count
reserve-get_example =
    reserve-get codec first (some "build-17") (connection []) jar refl refl refl refl refl refl refl
