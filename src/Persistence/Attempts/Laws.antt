-- ===== src/Persistence/Attempts/Laws.antt =====
-- The attempts of steps leave the deployments as they are.
use deploy_mcp.Prelude.{
  ℕ, suc, ◌≡◌, refl, ap, ◌∙◌, Bool, true, ◌&&◌, Option, none, List, [], ◌∷◌, ◌++◌, any, str_eq,
  eq_refl, ok, arith,
}
use deploy_mcp.Error.{Message}
use deploy_mcp.Ports.{StepAttemptId, StepAttemptStatus}
use deploy_mcp.Domain.Plan.{DeploymentStep}
use deploy_mcp.Domain.Release.{DeploymentId}
use deploy_mcp.Persistence.Schema.{Database, Connection, AttemptRow}
use deploy_mcp.Persistence.Schema.Laws.{transaction-keeps, transaction-ok}
use deploy_mcp.Persistence.Names.{step_name}
use deploy_mcp.Persistence.Guarded.{Guarded, Same, Guarded-Same}
use deploy_mcp.Persistence.Attempts.{start_body, start_step, finish_body, finish_step}

start_body-deployments :
    (id : DeploymentId) (step : DeploymentStep) (now : ℕ) (db : Database) (attempt : StepAttemptId)
    (db' : Database)
    → start_body id step now db ≡ ok (attempt, db')
    → db'.deployments ≡ db.deployments
unfolding start_body
start_body-deployments id step now db attempt db' h = ground arith

finish_body-deployments :
    (attempt : StepAttemptId) (status : StepAttemptStatus) (error : Option Message) (now : ℕ)
    (db db' : Database)
    → finish_body attempt status error now db ≡ ok (tt, db')
    → db'.deployments ≡ db.deployments
unfolding finish_body
finish_body-deployments attempt status error now db db' h = ground arith

pub start_step-deployments :
    (id : DeploymentId) (step : DeploymentStep) (c : Connection)
    → (start_step id step c).1.database.deployments ≡ c.database.deployments
unfolding start_step
start_step-deployments id step c =
    transaction-keeps (start_body id step) c (λ db. db.deployments ≡ c.database.deployments)
      (start_body-deployments id step c.now c.database) refl

pub finish_step-deployments :
    (attempt : StepAttemptId) (status : StepAttemptStatus) (error : Option Message) (c : Connection)
    → (finish_step attempt status error c).1.database.deployments ≡ c.database.deployments
unfolding finish_step
finish_step-deployments attempt status error c =
    transaction-keeps (finish_body attempt status error) c
      (λ db. db.deployments ≡ c.database.deployments)
      (λ u. finish_body-deployments attempt status error c.now c.database) refl

start_body-Same :
    (id : DeploymentId) (step : DeploymentStep) (now : ℕ) (db : Database) (attempt : StepAttemptId)
    (db' : Database)
    → start_body id step now db ≡ ok (attempt, db')
    → Same db db'
unfolding start_body
start_body-Same id step now db attempt db' h = (ground arith, ground arith)

pub start_step-Guarded :
    (id : DeploymentId) (step : DeploymentStep) (c : Connection)
    → Guarded c.database
    → Guarded (start_step id step c).1.database
unfolding start_step
start_step-Guarded id step c g =
    transaction-keeps (start_body id step) c Guarded
      (λ a db' h. Guarded-Same c.database db' g (start_body-Same id step c.now c.database a db' h))
      g

finish_body-Same :
    (attempt : StepAttemptId) (status : StepAttemptStatus) (error : Option Message) (now : ℕ)
    (db db' : Database)
    → finish_body attempt status error now db ≡ ok (tt, db')
    → Same db db'
unfolding finish_body
finish_body-Same attempt status error now db db' h = (ground arith, ground arith)

pub finish_step-Guarded :
    (attempt : StepAttemptId) (status : StepAttemptStatus) (error : Option Message) (c : Connection)
    → Guarded c.database
    → Guarded (finish_step attempt status error c).1.database
unfolding finish_step
finish_step-Guarded attempt status error c g =
    transaction-keeps (finish_body attempt status error) c Guarded
      (λ u db' h.
        Guarded-Same c.database db' g
          (finish_body-Same attempt status error c.now c.database db' h))
      g

-- The row is a started attempt of the deployment's step.
abbrev pub is_started_attempt : DeploymentId → DeploymentStep → AttemptRow → Bool
is_started_attempt id step row =
    str_eq row.deployment_id id && str_eq row.step (step_name step) && str_eq row.status "started"

any-appended :
    (p : AttemptRow → Bool) (rows : List AttemptRow) (row : AttemptRow)
    → p row ≡ true
    → any p (rows ++ row ∷ []) ≡ true
any-appended p [] row h = ground arith
any-appended p (r ∷ rows) row h = ground (arith, any-appended p rows row)

new_attempt : ℕ → DeploymentId → DeploymentStep → ℕ → AttemptRow
new_attempt n id step now = record {
  id = suc n;
  deployment_id = id;
  step = step_name step;
  status = "started";
  error = none;
  started_at_unix_ms = now;
  finished_at_unix_ms = none;
}

new_attempt_started :
    (n : ℕ) (id : DeploymentId) (step : DeploymentStep) (now : ℕ)
    → is_started_attempt id step (new_attempt n id step now) ≡ true
unfolding new_attempt
new_attempt_started n id step now = ground (arith, eq_refl id, eq_refl (step_name step))

start_body-started :
    (id : DeploymentId) (step : DeploymentStep) (now : ℕ) (db : Database) (attempt : StepAttemptId)
    (db' : Database)
    → start_body id step now db ≡ ok (attempt, db')
    → any (is_started_attempt id step) db'.attempts ≡ true
unfolding start_body new_attempt
start_body-started id step now db attempt db' h =
    let appended : db'.attempts ≡ db.attempts ++ new_attempt db.attempt_sequence id step now ∷ [] =
      ground arith in
    ap (any (is_started_attempt id step)) appended
    ∙ any-appended (is_started_attempt id step) db.attempts
        (new_attempt db.attempt_sequence id step now)
        (new_attempt_started db.attempt_sequence id step now)

-- A step that was started is recorded as started.
pub start_step-started :
    (id : DeploymentId) (step : DeploymentStep) (c : Connection) (attempt : StepAttemptId)
    → (start_step id step c).0 ≡ ok attempt
    → any (is_started_attempt id step) (start_step id step c).1.database.attempts ≡ true
unfolding start_step
start_step-started id step c attempt h =
    start_body-started id step c.now c.database attempt (start_step id step c).1.database
      (transaction-ok (start_body id step) c h)
