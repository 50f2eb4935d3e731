-- ===== src/Application/Retention/Laws.antt =====
-- What a cleanup over the SQLite repository may prune.
use deploy_mcp.Prelude.{
  ℕ, ◌+◌, ◌*◌, ◌≤◌, ◌≡◌, sym, ap, ◌∙◌, Bool, true, ◌&&◌, pos, List, ok, err, leb, map_err, arith,
}
use deploy_mcp.Ports.{RepositoryResult}
use deploy_mcp.Persistence.Schema.{Connection, ReferenceRow, RetentionRow}
use deploy_mcp.Persistence.Rollback.Retention.{
  is_prunable, is_inactive, not_after, prune_inactive_reference_snapshots,
}
use deploy_mcp.Persistence.Rollback.Retention.Laws.{Marks, prune_inactive_reference_snapshots-Marks}
use deploy_mcp.Persistence.Rollback.Repository.{sqlite_retention}
use deploy_mcp.Application.Exec.{error, bind-pure}
use deploy_mcp.Application.Retention.{
  millis_per_day, i64_max, RollbackRetentionReport, RollbackRetentionService, retention_ms,
  saturating_sub, prune, cleanup_at, repository_error,
}

-- The reference was superseded or consumed, and has not changed for as many days.
abbrev pub is_expired : ℕ → ℕ → ReferenceRow → Bool
is_expired days now row =
    is_inactive row && leb (row.updated_at_unix_ms + days * millis_per_day) now

is_expired-prunable :
    (days now : ℕ) (retention : List RetentionRow) (row : ReferenceRow)
    → days * millis_per_day ≤ i64_max
    → is_prunable (saturating_sub (pos now) (retention_ms days)) retention row ≡ true
    → is_expired days now row ≡ true
unfolding is_prunable saturating_sub retention_ms not_after
is_expired-prunable days now retention row fits h = ground arith

map_err-ok :
    (r : RepositoryResult ℕ) {n : ℕ} → map_err (λ e. error (repository_error e)) r ≡ ok n → r ≡ ok n
map_err-ok (ok m) h = ground arith
map_err-ok (err e) h = cc

-- A cleanup that reports has marked as pruned, and counted, references that were superseded or consumed and
-- have not changed since as many days as are configured, and no others, where these days in milliseconds
-- fit an i64.
pub cleanup_at-is_expired :
    (service : RollbackRetentionService) (now : ℕ) (c : Connection)
    (report : RollbackRetentionReport)
    → service.retention_days * millis_per_day ≤ i64_max
    → (cleanup_at sqlite_retention service (pos now) c).0 ≡ ok report
    → Marks
        (is_expired service.retention_days now)
        c.now
        c.database
        report.pruned_references
        (cleanup_at sqlite_retention service (pos now) c).1.database
unfolding cleanup_at prune
cleanup_at-is_expired service now c report fits h =
    let cutoff = saturating_sub (pos now) (retention_ms service.retention_days) in
    let (n, pruned, reported, left) =
      bind-pure (λ n. record { pruned_references = n; cutoff_unix_ms = cutoff })
        (prune sqlite_retention cutoff service.batch_size) c h in
    let old = is_expired-prunable service.retention_days now c.database.retention in
    let (rows, stored, counted, expired) =
      prune_inactive_reference_snapshots-Marks (is_expired service.retention_days now) cutoff
        service.batch_size c n (λ row due. old row fits due)
        (map_err-ok (prune_inactive_reference_snapshots cutoff service.batch_size c).0 pruned) in
    (
      rows,
      ap (λ c. c.database.retention) left ∙ stored,
      ap (λ r. r.pruned_references) (sym reported) ∙ counted,
      expired,
    )
