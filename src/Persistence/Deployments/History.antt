-- ===== src/Persistence/Deployments/History.antt =====
-- Any sequence of the repository's calls that write, and what holds after it.
use deploy_mcp.Prelude.{String, sym, Option, List, [], ◌∷◌}
use mathlib.Core.Path.{subst}
use deploy_mcp.Error.{Message}
use deploy_mcp.Ports.{StepAttemptId, StepAttemptStatus}
use deploy_mcp.Domain.State.{DeploymentState}
use deploy_mcp.Domain.Plan.{DeploymentStep}
use deploy_mcp.Domain.Release.{DeploymentId}
use deploy_mcp.Domain.Deployment.{Deployment}
use deploy_mcp.Persistence.Schema.{Connection}
use deploy_mcp.Persistence.Exclusive.{Exclusive}
use deploy_mcp.Persistence.Insert.{Codec, create}
use deploy_mcp.Persistence.Insert.Keeps.{create-Exclusive}
use deploy_mcp.Persistence.Reserve.{reserve}
use deploy_mcp.Persistence.Reserve.Keeps.{reserve-Exclusive}
use deploy_mcp.Persistence.Progress.{persist_transition}
use deploy_mcp.Persistence.Progress.Keeps.{persist_transition-Exclusive}
use deploy_mcp.Persistence.Attempts.{start_step, finish_step}
use deploy_mcp.Persistence.Attempts.Laws.{start_step-deployments, finish_step-deployments}

-- The methods that take `&mut self`, with their arguments.
pub data Call : Type 0 where
  creating : Deployment → Call
  reserving : Deployment → Option String → Call
  moving : DeploymentId → DeploymentState → DeploymentState → Call
  starting : DeploymentId → DeploymentStep → Call
  finishing : StepAttemptId → StepAttemptStatus → Option Message → Call

module _ (codec : Codec) where
  -- The connection after a call, whatever it returns.
  abbrev pub after_call : Call → Connection → Connection
  after_call (creating d) c = (create codec d c).1
  after_call (reserving d key) c = (reserve codec d key c).1
  after_call (moving id from to) c = (persist_transition id from to c).1
  after_call (starting id step) c = (start_step id step c).1
  after_call (finishing attempt status error) c = (finish_step attempt status error c).1

  abbrev pub after_calls : List Call → Connection → Connection
  after_calls [] c = c
  after_calls (call ∷ calls) c = after_calls calls (after_call call c)

  after_call-Exclusive :
      (call : Call) (c : Connection)
      → Exclusive c.database.deployments
      → Exclusive (after_call call c).database.deployments
  after_call-Exclusive (creating d) c x = create-Exclusive codec d c x
  after_call-Exclusive (reserving d key) c x = reserve-Exclusive codec d key c x
  after_call-Exclusive (moving id from to) c x = persist_transition-Exclusive id from to c x
  after_call-Exclusive (starting id step) c x =
      subst Exclusive (sym (start_step-deployments id step c)) x
  after_call-Exclusive (finishing attempt status error) c x =
      subst Exclusive (sym (finish_step-deployments attempt status error c)) x

  -- From a database in which each environment has at most one deployment that is not terminal, every
  -- sequence of calls of the repository, failed ones included, leads to such a database.
  pub after_calls-Exclusive :
      (calls : List Call) (c : Connection)
      → Exclusive c.database.deployments
      → Exclusive (after_calls calls c).database.deployments
  after_calls-Exclusive [] c x = x
  after_calls-Exclusive (call ∷ calls) c x =
      after_calls-Exclusive calls (after_call call c) (after_call-Exclusive call c x)
