-- ===== src/Scenarios.antt =====
-- Concrete data: an application with one environment, an empty SQLite database, a file system with one
-- artifact and a remote side that always succeeds.
pub mod Services
pub mod Recovery
pub mod Mechanism
pub mod Values
use deploy_mcp.Prelude.{
  ◌↔◌, ℕ, String, ◌≡◌, ◌≤◌, ◌≢◌, ◌⊎◌, refl, Bool, true, false, not, ◌&&◌, Option, none, some, List,
  [], ◌∷◌, Result, ok, err, any, is_empty, pos, if◌then◌else◌,
}
use deploy_mcp.Text.{
  all_chars, is_ascii_hexdigit, is_whitespace, is_blank, to_ascii_lowercase, strip_prefix, trim,
}
use deploy_mcp.Error.{as_str-injective, as_str, operation_timed_out, Message}
use deploy_mcp.Config.{ArtifactType, Config, EnvironmentConfig, LocalArtifactConfig}
use deploy_mcp.Domain.State.{
  DeploymentState, can_transition_to, has_live_mutation_started, is_terminal,
  has_live_artifact_replacement_started,
}
use deploy_mcp.Domain.State
use deploy_mcp.Domain.State.Graph.{
  Reaches, here, step, steps, steps-le, is_terminal_iff, has_live_mutation_started-step,
}
use deploy_mcp.Domain.Release.{
  Artifact, artifact_new, is_checksum, ReleaseIdentity, local_file, container_image, jar_systemd,
  ContainerImageReleaseIdentity, container_new,
}
use deploy_mcp.Domain.Release.Laws.{artifact_new_iff, artifact_new-stored}
use deploy_mcp.Domain.Deployment.{Deployment, fail}
use deploy_mcp.Domain.Deployment.Laws.{fail_lem}
use deploy_mcp.Domain.Plan.{
  DeploymentPlan, DeploymentStep, generic, requires_rollback_after_failure,
}
use deploy_mcp.Domain.Plan
use deploy_mcp.Domain.Plan.Boundary.{fail-requires_rollback}
use deploy_mcp.Ports.{DeploymentRepository, created}
use deploy_mcp.Ports.Contract.{Contract}
use deploy_mcp.Application.Lock.{
  Key, try_acquire, release, is_active, key_eq, try_acquire-release, try_acquire_other,
}
use deploy_mcp.Application.Mechanism.{DeploymentMechanismPort, MechanismTaskExecution, done}
use deploy_mcp.Domain.Rollback.{mechanism_snapshot_mismatch}
use deploy_mcp.Application.Artifact.{FileSystem, canonical_roots, resolve_allowed_artifact_path}
use deploy_mcp.Application.Artifact.Laws.{resolve_allowed_artifact_path-ok}
use deploy_mcp.Application.Exec.{Ends}
use deploy_mcp.Application.Deploy.Attempt.{World}
use deploy_mcp.Application.Deploy.Attempt.Rules.{Open}
use deploy_mcp.Application.Deploy.Run.{run}
use deploy_mcp.Application.Deploy.Request.{DeployRequest, deploy}
use deploy_mcp.Application.Deploy.Request.Outcomes.{Agrees, Refused}
use deploy_mcp.Persistence.Names.{
  parse_state-state_name, is_terminal_name-state_name, parse_state, state_name, is_terminal_name,
}
use deploy_mcp.Persistence.Schema.{
  transaction, is_active_row, metadata_row, Connection, Database, DeploymentRow, deployment_row,
}
use deploy_mcp.Persistence.Stored.{stored_state, row_state}
use deploy_mcp.Persistence.Insert.{Codec, insert_violation, new_row}
use deploy_mcp.Persistence.Reserve.{reserve}
use deploy_mcp.Persistence.Progress.{persist_transition}
use deploy_mcp.Persistence.Progress.Laws.{persist_transition-moves}
use deploy_mcp.Persistence.Deployments.{sqlite}
use deploy_mcp.Persistence.Deployments.Contract.{sqlite_contract}

abbrev pub checksum : String
checksum = "0123456789abcdef0123456789abcdef0123456789abcdef0123456789abcdef"

abbrev pub jar : Artifact
jar = record { version = "1.4.0"; size_bytes = 3; sha256 = checksum }

abbrev pub codec : Codec
codec = record { to_json = λ r. "release"; from_json = λ t. some (local_file jar) }

abbrev pub staging : EnvironmentConfig
staging = record {
  mechanism = record { kind = jar_systemd };
  target = "host-1";
  staging_path = "/srv/staging/app.jar";
  install_path = "/srv/app/app.jar";
  backup_path = "/srv/backup/app.jar";
  tasks = record {
    precheck = none;
    backup = "backup";
    install = "install";
    restart = "restart";
    health_check = "health";
    rollback = some "rollback";
  };
}

abbrev pub config : Config
config = record {
  remote_exec = record { command = "remote-exec"; args = [] };
  local_artifacts = record { allowed_roots = "/builds" ∷ [] };
  runtime = record {
    deployment_step_timeout_ms = 30000;
    explicit_rollback_timeout_ms = 60000;
    verification_max_attempts = 3;
    verification_retry_delay_ms = 1000;
    rollback_reference_retention_days = 30;
    rollback_reference_cleanup_batch_size = 100;
  };
  applications =
      (
        "shop",
        record {
          display_name = none;
          artifact_type = ArtifactType.jar;
          environments = ("staging", staging) ∷ [];
        },
      )
      ∷ [];
}

abbrev pub fs : FileSystem
fs = record {
  canonicalize = λ p. some p;
  is_dir = λ p. some true;
  has_parent = λ p. true;
  starts_with = λ path root. true;
  opens = λ p. true;
  is_utf8 = λ p. true;
  metadata = λ p. some (true, 3);
  reads = λ p. some (1 ∷ 2 ∷ 3 ∷ []) ∷ some [] ∷ [];
}

abbrev pub finished : MechanismTaskExecution
finished = record {
  task = "rollback";
  result = record {
    success = true;
    exit_code = some (pos 0);
    stdout = "";
    stderr = "";
    duration_ms = 5;
    stdout_truncated = false;
    stderr_truncated = false;
  };
}

abbrev pub mechanism : DeploymentMechanismPort (Unit {0})
mechanism = record {
  kind = jar_systemd;
  precheck_is_configured = λ e. false;
  rollback_is_configured = λ e. true;
  build_rollback_reference = λ d e. err mechanism_snapshot_mismatch;
  rollback_contract_matches = λ e reference. true;
  preflight = λ e r.
      (done (ok (record { target = e.target; remote_identity = none; available_tasks = [] })), r);
  prepare = λ e path r. (done (ok (record { bytes_transferred = 3 })), r);
  execute = λ e operation r. (
    done (
        ok (record {
          task = "task";
          result = record {
            success = true;
            exit_code = some (pos 0);
            stdout = "";
            stderr = "";
            duration_ms = 5;
            stdout_truncated = false;
            stderr_truncated = false;
          };
        })),
    r,
  );
  execute_current_rollback = λ e action r. (done (ok finished), r);
  preflight_rollback = λ reference r. (
    done (ok (record { target = reference.target; remote_identity = none; available_tasks = [] })),
    r,
  );
  execute_rollback = λ reference action r. (done (ok finished), r);
}

abbrev pub database : List DeploymentRow → Database
database rows = record {
  deployments = rows;
  metadata = [];
  transitions = [];
  attempts = [];
  attempt_sequence = 0;
  idempotency = [];
  rollback_operations = [];
  recovery_incidents = [];
  incident_sequence = 0;
  references = [];
  reference_models = [];
  retention = [];
  acknowledgements = [];
}

abbrev pub connection : List DeploymentRow → Connection
connection rows = record { database = database rows; now = 1700000000000; faults = [] }

abbrev pub world : List DeploymentRow → World Connection (Unit {0})
world rows = record { repository = connection rows; remote = tt; calls = []; active = [] }

abbrev pub request : DeployRequest
request = record {
  application = "shop";
  environment = "staging";
  version = "1.4.0";
  artifact_path = "/builds/app.jar";
  idempotency_key = some "build-17";
}

abbrev pub first : Deployment
first = record {
  id = "d-1";
  application = "shop";
  environment = "staging";
  mechanism_kind = jar_systemd;
  release_identity = local_file jar;
  state = State.created;
}

abbrev pub first_row : DeploymentRow
first_row = record {
  id = "d-1";
  application_id = "shop";
  environment_id = "staging";
  artifact_version = "1.4.0";
  artifact_size_bytes = 3;
  artifact_sha256 = checksum;
  state = "created";
  created_at_unix_ms = 1700000000000;
  updated_at_unix_ms = 1700000000000;
}

abbrev pub image : ContainerImageReleaseIdentity
image = record {
  version = "2.0";
  repository = "registry/shop";
  digest = "sha256:0123456789abcdef0123456789abcdef0123456789abcdef0123456789abcdef";
}

abbrev pub plan : DeploymentPlan
plan = record {
  deployment_id = "d-1";
  target = "host-1";
  mechanism_kind = jar_systemd;
  release_identity = local_file jar;
  operations =
      Plan.DeploymentLifecycleOperation.validate ∷ Plan.DeploymentLifecycleOperation.precheck
      ∷ Plan.DeploymentLifecycleOperation.prepare
      ∷ Plan.DeploymentLifecycleOperation.capture_rollback ∷ Plan.DeploymentLifecycleOperation.apply
      ∷ Plan.DeploymentLifecycleOperation.activate ∷ Plan.DeploymentLifecycleOperation.verify ∷ [];
  rollback_boundary = record { first_live_mutation = Plan.DeploymentLifecycleOperation.apply };
  rollback_available = true;
}
