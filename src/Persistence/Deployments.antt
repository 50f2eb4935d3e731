-- ===== src/Persistence/Deployments.antt =====
-- src/persistence.rs: `SqliteDeploymentRepository`, the implementation of the port. A method's SQL is
-- read against the tables of `Schema`; all migrations have been applied, as they are once the service
-- has started. The JSON codec of release identities is a parameter.
pub mod Contract
pub mod History
use deploy_mcp.Prelude.{ℕ, ◌+◌, ◌^◌, ◌&&◌, ◌||◌, [], ◌∷◌, ◌++◌, ◌==◌, if◌then◌else◌}
use deploy_mcp.Ports.{DeploymentRepository}
use deploy_mcp.Persistence.Schema.{Connection}
use deploy_mcp.Persistence.Insert.{Codec, ◌>>=◌, ◌>>◌, create}
use deploy_mcp.Persistence.Decode.{get, list_non_terminal}
use deploy_mcp.Persistence.Reserve.{reserve}
use deploy_mcp.Persistence.Progress.{persist_transition, transitions}
use deploy_mcp.Persistence.Attempts.{start_step, finish_step, step_attempts}

abbrev pub sqlite : Codec → DeploymentRepository Connection
sqlite codec = record {
  create = create codec;
  reserve = reserve codec;
  get = get codec;
  list_non_terminal = list_non_terminal codec;
  persist_transition = persist_transition;
  transitions = transitions;
  start_step = start_step;
  finish_step = finish_step;
  step_attempts = step_attempts;
}
