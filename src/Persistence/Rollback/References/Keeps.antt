-- ===== src/Persistence/Rollback/References/Keeps.antt =====
-- Recording a reference leaves the deployments and the operations as they are.
use deploy_mcp.Prelude.{ℕ, ◌≡◌, Option, none, some, ok, arith}
use deploy_mcp.Domain.Rollback.{Sha256, RollbackReference}
use deploy_mcp.Persistence.Schema.{Database, Connection, ReferenceRow, deployment_row}
use deploy_mcp.Persistence.Schema.Laws.{transaction-keeps}
use deploy_mcp.Persistence.Insert.Laws.{bind-ok}
use deploy_mcp.Persistence.Guarded.{Guarded, Same, Guarded-Same}
use deploy_mcp.Persistence.Rollback.Decode.{SnapshotCodec, reference_row}
use deploy_mcp.Persistence.Rollback.References.{
  found_source, check_identity, check_source, record_body, record_reference, insert_reference,
}

module _ (sha256 : Sha256) (codec : SnapshotCodec) (reference : RollbackReference) where
  insert_reference-Same :
      (now : ℕ) (db db' : Database) (row : Option ReferenceRow)
      → insert_reference sha256 codec reference now db row ≡ ok (tt, db')
      → Same db db'
  unfolding insert_reference
  insert_reference-Same now db db' none h = (ground arith, ground arith)
  insert_reference-Same now db db' (some row) h = (ground arith, ground arith)

  pub record_reference-Guarded :
      (c : Connection)
      → Guarded c.database
      → Guarded (record_reference sha256 codec reference c).1.database
  unfolding record_reference record_body
  record_reference-Guarded c g =
      transaction-keeps (record_body sha256 codec reference) c Guarded
        (λ u db' h.
          let (row, found, h) =
            bind-ok
              (found_source reference.deployment_id
                (deployment_row reference.deployment_id c.database))
              _ h in
          let (v, named, h) = bind-ok (check_identity reference row) _ h in
          let (w, checked, h) =
            bind-ok
              (check_source reference.deployment_id row.application_id row.environment_id row
                c.database)
              _ h in
          Guarded-Same c.database db' g (
            insert_reference-Same c.now c.database db'
              (reference_row reference.deployment_id c.database) h))
        g
