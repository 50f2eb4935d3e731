-- ===== src/Persistence/Deployments/Contract.antt =====
-- The SQLite repository fulfils what the services rely on.
use deploy_mcp.Prelude.{◌≡◌, ap, any}
use deploy_mcp.Ports.{created, reused}
use deploy_mcp.Ports.Contract.{Contract}
use deploy_mcp.Persistence.Schema.{Database, deployment_row}
use deploy_mcp.Persistence.Stored.{stored_state}
use deploy_mcp.Persistence.Insert.{Codec}
use deploy_mcp.Persistence.Reserve.Laws.{reserve-stored}
use deploy_mcp.Persistence.Progress.Laws.{persist_transition-moves, persist_transition-keeps}
use deploy_mcp.Persistence.Attempts.Laws.{
  is_started_attempt, start_step-started, start_step-deployments, finish_step-deployments,
}
use deploy_mcp.Persistence.Deployments.{sqlite}
use deploy_mcp.Domain.Release.{DeploymentId}

-- The stored state depends on the deployments alone.
pub stored_state-deployments :
    (id : DeploymentId) (a b : Database)
    → a.deployments ≡ b.deployments
    → stored_state id a ≡ stored_state id b
unfolding stored_state deployment_row
stored_state-deployments id a b h = cc

-- The SQLite repository, with any codec and from any database, tells by its results what it has done
-- to the stored states.
unfoldable pub sqlite_contract : (codec : Codec) → Contract (sqlite codec)
sqlite_contract codec = record {
  stored = λ c id. stored_state id c.database;
  reserve-created = λ d key c h. reserve-stored codec d key c created h;
  reserve-reused = λ d e key c h. reserve-stored codec d key c (reused e) h;
  persist-ok = persist_transition-moves;
  persist-err = λ id from to c e h. ap (stored_state id) (persist_transition-keeps id from to c h);
  started = λ c id step. any (is_started_attempt id step) c.database.attempts;
  start-ok = start_step-started;
  stored-start_step =
      λ id j step c. stored_state-deployments j _ _ (start_step-deployments id step c);
  stored-finish_step = λ attempt status error j c.
      stored_state-deployments j _ _ (finish_step-deployments attempt status error c);
}
