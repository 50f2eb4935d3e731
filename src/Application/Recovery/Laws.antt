-- ===== src/Application/Recovery/Laws.antt =====
-- What a startup recovery over the SQLite repository leaves.
use deploy_mcp.Prelude.{
  String, ◌≡◌, ap, ◌∙◌, true, false, List, [], ◌∷◌, ok, err, any, map_err, arith, Bool-cases,
  str_eq, eq_iff, inl, inr, ◌⊎◌,
}
use mathlib.Core.Path.{subst}
use deploy_mcp.Domain.Rollback.{RollbackOperation}
use deploy_mcp.Domain.Recovery.{RecoveryIncident}
use deploy_mcp.Ports.{RepositoryResult}
use deploy_mcp.Persistence.Schema.{Connection}
use deploy_mcp.Persistence.Recovery.{recover_rollback_operation}
use deploy_mcp.Persistence.Recovery.Queries.{started_rollback_operations, interrupted_deployments}
use deploy_mcp.Persistence.Recovery.Queries.Laws.{
  is_started, running, listed, recover_rollback_operation-Stops, started_rollback_operations-listed,
  none-running,
}
use deploy_mcp.Persistence.Recovery.Repository.{sqlite_recovery}
use deploy_mcp.Application.Exec.{App, error, pure, ◌>>=◌, bind-ok, bind-pure}
use deploy_mcp.Application.Recovery.{
  StartupRecoveryReport, push, calling, reading, repository_error, rollback_recovery_reason,
  recover_deployments, recover_operations, recover,
}

mapped-ok :
    {A : Type 0} (r : RepositoryResult A) {a : A}
    → map_err (λ e. error (repository_error e)) r ≡ ok a
    → r ≡ ok a
mapped-ok (ok b) h = ground arith
mapped-ok (err e) h = cc

-- What the loop over these operations leaves in place of the running ones.
Stopped : List RollbackOperation → Connection → Connection → Type 0
Stopped operations c c' =
    (j : String)
    → ((listed j operations ≡ true) ⊎ (running j c.database ≡ false))
    → running j c'.database ≡ false

-- One operation is recovered: what still runs is among the others.
listed-next :
    (o : RollbackOperation) (os : List RollbackOperation) (j : String) (c c' : Connection)
    → running o.id c'.database ≡ false
    → (running j c.database ≡ false → running j c'.database ≡ false)
    → (listed j (o ∷ os) ≡ true) ⊎ (running j c.database ≡ false)
    → (listed j os ≡ true) ⊎ (running j c'.database ≡ false)
listed-next o os j c c' own others (inr idle) = inr (others idle)
listed-next o os j c c' own others (inl here) = elim (Bool-cases (str_eq o.id j)) [
  | inl same ↦ inr (subst (λ id. running id c'.database ≡ false) ((eq_iff o.id j).0 same) own)
  | inr other ↦ inl (ground arith)
]

recover_operations-Stopped :
    (operations : List RollbackOperation) (incidents : List RecoveryIncident) (c : Connection)
    (reported : List RecoveryIncident)
    → (recover_operations sqlite_recovery operations incidents c).0 ≡ ok reported
    → Stopped operations c (recover_operations sqlite_recovery operations incidents c).1
unfolding recover_operations calling pure Stopped
recover_operations-Stopped [] incidents c reported h j (inl here) = cc
recover_operations-Stopped [] incidents c reported h j (inr idle) = idle
recover_operations-Stopped (o ∷ os) incidents c reported h j here =
    let reason = rollback_recovery_reason o in
    let next = recover_rollback_operation o reason c in
    let (i, called, rest, same) =
      bind-ok (λ i. recover_operations sqlite_recovery os (push i incidents))
        (calling (recover_rollback_operation o reason)) c h in
    let (own, others) = recover_rollback_operation-Stops o reason c i (mapped-ok next.0 called) in
    ap (λ r. running j r.1.database) same
    ∙ recover_operations-Stopped os (push i incidents) next.1 reported rest j
        (listed-next o os j c next.1 own (others j) here)

-- The loop over all the started operations leaves none.
operations-none_started :
    (operations : List RollbackOperation) (incidents : List RecoveryIncident) (c : Connection)
    (reported : List RecoveryIncident)
    → started_rollback_operations c ≡ ok operations
    → (recover_operations sqlite_recovery operations incidents c).0 ≡ ok reported
    → any is_started
        (recover_operations sqlite_recovery operations incidents c).1.database.rollback_operations
      ≡ false
unfolding Stopped
operations-none_started operations incidents c reported found h =
    let after = (recover_operations sqlite_recovery operations incidents c).1 in
    let all_listed = started_rollback_operations-listed c operations found in
    let stopped = recover_operations-Stopped operations incidents c reported h in
    none-running after.database (λ j. stopped j (elim (Bool-cases (running j c.database)) [
      | inl here ↦ inl (all_listed j here)
      | inr idle ↦ inr idle
    ]))

-- The parts of `recover` that follow the deployments, and their incidents.
reported : List RecoveryIncident → StartupRecoveryReport
reported incidents = record { incidents = incidents }

recover_rest : List RecoveryIncident → App Connection StartupRecoveryReport
recover_rest incidents = reading started_rollback_operations >>= λ operations.
    recover_operations sqlite_recovery operations incidents >>= λ all_. pure (reported all_)

rest-none_started :
    (incidents : List RecoveryIncident) (c : Connection) (report : StartupRecoveryReport)
    → (recover_rest incidents c).0 ≡ ok report
    → any is_started (recover_rest incidents c).1.database.rollback_operations ≡ false
unfolding recover_rest reading
rest-none_started incidents c report h =
    let (operations, found, h, same) =
      bind-ok
        (λ operations.
          recover_operations sqlite_recovery operations incidents >>= λ all_. pure (reported all_))
        (reading started_rollback_operations) c h in
    let (incidents', recovered, eq, left) =
      bind-pure reported (recover_operations sqlite_recovery operations incidents) c h in
    ap (λ r. any is_started r.1.database.rollback_operations) same
    ∙ ap (λ (c : Connection). any is_started c.database.rollback_operations) left
    ∙ operations-none_started operations incidents c incidents' (mapped-ok _ found) recovered

-- After a startup recovery over SQLite that succeeds, no rollback operation is stored as started.
pub recover-none_started :
    (c : Connection) (report : StartupRecoveryReport)
    → (recover sqlite_recovery c).0 ≡ ok report
    → any is_started (recover sqlite_recovery c).1.database.rollback_operations ≡ false
unfolding recover recover_rest reported reading
recover-none_started c report h =
    let (deployments, listed, h, same) =
      bind-ok (λ deployments. recover_deployments sqlite_recovery deployments [] >>= recover_rest)
        (reading interrupted_deployments) c h in
    let (incidents, recovered, h, later) =
      bind-ok recover_rest (recover_deployments sqlite_recovery deployments []) c h in
    ap (λ r. any is_started r.1.database.rollback_operations) (same ∙ later)
    ∙ rest-none_started incidents (recover_deployments sqlite_recovery deployments [] c).1 report h
