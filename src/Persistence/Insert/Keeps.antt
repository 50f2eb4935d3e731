-- ===== src/Persistence/Insert/Keeps.antt =====
-- An insertion appends one row, which is in no active row's way.
use deploy_mcp.Prelude.{
  ℕ, ◌≡◌, refl, sym, true, false, Option, none, some, [], ◌∷◌, ◌++◌, ok, any, arith,
}
use mathlib.Core.Path.{subst}
use deploy_mcp.Ports.{RepositoryError, already_exists}
use deploy_mcp.Domain.Deployment.{Deployment}
use deploy_mcp.Domain.Release.{Artifact}
use deploy_mcp.Persistence.Schema.{
  unresolved_in, started_in, Database, Connection, DeploymentRow, is_active_row, active_in,
}
use deploy_mcp.Persistence.Schema.Laws.{transaction-keeps}
use deploy_mcp.Persistence.Exclusive.{Exclusive, Exclusive-append}
use deploy_mcp.Persistence.Insert.{
  Codec, Violation, insert_deployment, insert_violation, inserted, new_row, create, local_artifact,
  sqlite_integer, insert_deployment_model_metadata,
}
use deploy_mcp.Persistence.Insert.Laws.{bind-ok, metadata-deployments, metadata-operations}

-- The row is appended, in an environment without a started operation or an unresolved incident; it is active only where its
-- environment has no active row.
abbrev pub Appends : DeploymentRow → Database → Database → Type 0
Appends row db db' =
    (db'.deployments ≡ db.deployments ++ row ∷ [])
    × (db'.rollback_operations ≡ db.rollback_operations)
    × (any (started_in row.application_id row.environment_id) db.rollback_operations ≡ false)
    × (any (unresolved_in row.application_id row.environment_id) db.recovery_incidents ≡ false)
    × (is_active_row row ≡ true
        → any (active_in row.application_id row.environment_id) db.deployments ≡ false)

inserted-Appends :
    (refusal : Violation → RepositoryError) (row : DeploymentRow) (db db' : Database)
    (v : Option Violation)
    → (v ≡ none
        → (any (started_in row.application_id row.environment_id) db.rollback_operations ≡ false)
          × (any (unresolved_in row.application_id row.environment_id) db.recovery_incidents
              ≡ false))
    → (v ≡ none
        → is_active_row row ≡ true
        → any (active_in row.application_id row.environment_id) db.deployments ≡ false)
    → inserted refusal row db v ≡ ok db'
    → Appends row db db'
unfolding inserted
inserted-Appends refusal row db db' (some v) idle free h = (cc, cc, cc, cc, cc)
inserted-Appends refusal row db db' none idle free h =
    (ground arith, ground arith, (idle refl).0, (idle refl).1, free refl)

insert_violation-idle :
    (row : DeploymentRow) (db : Database)
    → insert_violation row db ≡ none
    → (any (started_in row.application_id row.environment_id) db.rollback_operations ≡ false)
      × (any (unresolved_in row.application_id row.environment_id) db.recovery_incidents ≡ false)
unfolding insert_violation
insert_violation-idle row db h = (ground arith, ground arith)

insert_violation-free :
    (row : DeploymentRow) (db : Database)
    → insert_violation row db ≡ none
    → is_active_row row ≡ true
    → any (active_in row.application_id row.environment_id) db.deployments ≡ false
unfolding insert_violation
insert_violation-free row db h active = ground arith

pub insert_deployment-Appends :
    (refusal : Violation → RepositoryError) (row : DeploymentRow) (db db' : Database)
    → insert_deployment refusal row db ≡ ok db'
    → Appends row db db'
unfolding insert_deployment
insert_deployment-Appends refusal row db db' h =
    inserted-Appends refusal row db db' (insert_violation row db) (insert_violation-idle row db)
      (insert_violation-free row db) h

pub Appends-Exclusive :
    (row : DeploymentRow) (db db' : Database)
    → Exclusive db.deployments
    → Appends row db db'
    → Exclusive db'.deployments
Appends-Exclusive row db db' x (same, others, idle, settled, free) =
    subst Exclusive (sym same) (Exclusive-append db.deployments row x free)

-- What every database with one row more has, the database after the call has.
pub create-keeps :
    (codec : Codec) (d : Deployment) (c : Connection) (P : Database → Type 0)
    → ((artifact : Artifact) (size : ℕ) (db : Database)
        → Appends (new_row d artifact size c.now) c.database db
        → P db)
    → P c.database
    → P (create codec d c).1.database
unfolding create
create-keeps codec d c P grow x =
    transaction-keeps _ c P
      (λ u db' h.
        let (artifact, a, h) = bind-ok (local_artifact d) _ h in
        let (size, s, h) = bind-ok (sqlite_integer artifact.size_bytes) _ h in
        let row = new_row d artifact size c.now in
        let (db1, h1, h) =
          bind-ok (insert_deployment (λ v. already_exists d.id) row c.database) _ h in
        let (db2, h2, h) = bind-ok (insert_deployment_model_metadata codec d db1) _ h in
        let (same, others, idle, settled, free) =
          insert_deployment-Appends (λ v. already_exists d.id) row c.database db1 h1 in
        grow artifact size db' (
          ground (arith, metadata-deployments codec d db1 db2 h2, same),
          ground (arith, metadata-operations codec d db1 db2 h2, others),
          idle,
          settled,
          free,
        ))
      x

pub create-Exclusive :
    (codec : Codec) (d : Deployment) (c : Connection)
    → Exclusive c.database.deployments
    → Exclusive (create codec d c).1.database.deployments
create-Exclusive codec d c x =
    create-keeps codec d c (λ db. Exclusive db.deployments)
      (λ artifact size db a. Appends-Exclusive (new_row d artifact size c.now) c.database db x a) x
