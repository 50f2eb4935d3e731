-- ===== src/Application/Retention.antt =====
-- src/application/retention.rs: the cleanup of rollback snapshots. The service runs over the state of its
-- repository; the cutoff is an i64, so its arithmetic saturates.
pub mod Laws
use deploy_mcp.Prelude.{ℕ, ◌+◌, ◌-◌, ◌*◌, ◌^◌, min, ℤ, pos, negsuc, leb, map_err, if◌then◌else◌}
use deploy_mcp.Error.{AppError, app_error, persistence_failed}
use deploy_mcp.Ports.{RepositoryError, display_repository}
use deploy_mcp.Ports.Rollback.{RollbackRetentionRepository}
use deploy_mcp.Application.Exec.{App, error, pure, ◌>>=◌}

abbrev pub millis_per_day : ℕ
millis_per_day = 86400000

abbrev pub i64_max : ℕ
i64_max = 2 ^ 63 - 1

pub record RollbackRetentionReport : Type 0 where
  pub pruned_references : ℕ
  pub cutoff_unix_ms : ℤ

pub record RollbackRetentionService : Type 0 where
  pub retention_days : ℕ  -- u32
  pub batch_size : ℕ

-- `i64::from(days).saturating_mul(MILLIS_PER_DAY)`.
unfoldable pub retention_ms : ℕ → ℕ
retention_ms days = min (days * millis_per_day) i64_max

-- `saturating_sub` of an i64 that is not negative; `negsuc n` is -(n + 1).
unfoldable pub saturating_sub : ℤ → ℕ → ℤ
saturating_sub (pos n) r = if leb r n then pos (n - r) else negsuc (r - n - 1)
saturating_sub (negsuc n) r = negsuc (min (n + r) i64_max)

unfoldable pub repository_error : RepositoryError → AppError
repository_error e = app_error persistence_failed (display_repository e)

module _ {S : Type 0} (port : RollbackRetentionRepository S) where
  prune : ℤ → ℕ → App S ℕ
  unfolding repository_error
  prune cutoff limit s =
      let (r, s') = port.prune_inactive_reference_snapshots cutoff limit s in
      (map_err (λ e. error (repository_error e)) r, s')

  unfoldable pub cleanup_at : RollbackRetentionService → ℤ → App S RollbackRetentionReport
  unfolding prune retention_ms saturating_sub
  cleanup_at service now_unix_ms = do
    let cutoff = saturating_sub now_unix_ms (retention_ms service.retention_days)
    pruned ← prune cutoff service.batch_size
    pure (record { pruned_references = pruned; cutoff_unix_ms = cutoff })

  -- `cleanup`, with the milliseconds that the clock shows.
  unfoldable pub cleanup : RollbackRetentionService → ℕ → App S RollbackRetentionReport
  cleanup service millis = cleanup_at service (pos (min millis i64_max))
