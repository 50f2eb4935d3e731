-- ===== src/Persistence/Rollback/Retention.antt =====
-- src/rollback_persistence.rs: `prune_inactive_reference_snapshots`.
pub mod Laws
use deploy_mcp.Prelude.{
  ℕ, zero, suc, ◌^◌, String, Bool, true, false, not, ◌&&◌, ◌||◌, List, [], ◌∷◌, ◌++◌, Result, ok,
  err, any, filter, map, length, str_eq, ltb, leb, ◌==◌, if◌then◌else◌, ℤ, pos, negsuc,
}
use Prim.Native.Nat.{Ordering}
use Prim.Native.String.{compare}
use deploy_mcp.Error.{plain}
use deploy_mcp.Persistence.Order.{order_by, at_most}
use deploy_mcp.Ports.{RepositoryResult, storage}
use deploy_mcp.Persistence.Schema.{
  Database, Connection, transaction, ReferenceRow, ReferenceModelRow, RetentionRow,
}

unfoldable pub is_inactive : ReferenceRow → Bool
is_inactive row = str_eq row.state "superseded" || str_eq row.state "consumed"

-- A timestamp is at most the cutoff, which is an `i64`.
unfoldable pub not_after : ℕ → ℤ → Bool
not_after n (pos m) = leb n m
not_after n (negsuc m) = false

unfoldable pub is_retained : String → List RetentionRow → Bool
is_retained id rows = any (λ (r : RetentionRow). str_eq r.deployment_id id) rows

unfoldable pub is_prunable : ℤ → List RetentionRow → ReferenceRow → Bool
is_prunable cutoff retention row =
    is_inactive row
    && not_after row.updated_at_unix_ms cutoff
    && not (is_retained row.deployment_id retention)

precedes : ReferenceRow → ReferenceRow → Bool
precedes a b =
    ltb a.updated_at_unix_ms b.updated_at_unix_ms
    || (a.updated_at_unix_ms == b.updated_at_unix_ms
        && at_most (compare a.deployment_id b.deployment_id))

-- `ORDER BY rr.updated_at_unix_ms ASC, rr.deployment_id ASC`.
unfoldable pub order_by_update : List ReferenceRow → List ReferenceRow
unfolding precedes
order_by_update = order_by precedes

abbrev pub take : ℕ → List ReferenceRow → List ReferenceRow
take zero rows = []
take (suc n) [] = []
take (suc n) (row ∷ rows) = row ∷ take n rows

-- The rows that a cleanup prunes: the oldest that are due, as many as the limit allows.
unfoldable pub selected : ℤ → ℕ → Database → List ReferenceRow
selected cutoff limit db =
    take limit (order_by_update (filter (is_prunable cutoff db.retention) db.references))

unfoldable pub retain : ℕ → ReferenceRow → RetentionRow
retain now row = record { deployment_id = row.deployment_id; snapshot_pruned_at_unix_ms = now }

pruned_now : ℕ → List RetentionRow → String → Bool
pruned_now now retention id =
    any (λ (r : RetentionRow). str_eq r.deployment_id id && r.snapshot_pruned_at_unix_ms == now)
      retention

blank_row : ReferenceRow → ReferenceRow
blank_row row = record row {
  target = "";
  backup_path = "";
  install_path = "";
  rollback_task = "";
  restart_task = "";
  health_check_task = "";
}

unfoldable pub blank_references : ℕ → List RetentionRow → List ReferenceRow → List ReferenceRow
unfolding pruned_now blank_row
blank_references now retention [] = []
blank_references now retention (row ∷ rows) =
    (if pruned_now now retention row.deployment_id && is_inactive row then blank_row row else row)
    ∷ blank_references now retention rows

prune_body : ℤ → ℕ → ℕ → Database → RepositoryResult (ℕ × Database)
unfolding retain pruned_now
prune_body cutoff limit now db =
    let rows = selected cutoff limit db in
    let retention = db.retention ++ map (retain now) rows in
    if length rows == 0
    then ok (0, db)
    else ok (
      length rows,
      record db {
        retention = retention;
        references = blank_references now retention db.references;
        reference_models =
            filter (λ (m : ReferenceModelRow). not (pruned_now now retention m.deployment_id))
              db.reference_models;
      },
    )

-- `prune_inactive_reference_snapshots`.
unfoldable pub prune_inactive_reference_snapshots :
    ℤ → ℕ → Connection → RepositoryResult ℕ × Connection
unfolding prune_body
prune_inactive_reference_snapshots cutoff limit c =
    if limit == 0
    then (ok 0, c)
    else if not (ltb limit (2 ^ 63))
    then (err (storage (plain "retention batch size is too large")), c)
    else transaction (prune_body cutoff limit) c
