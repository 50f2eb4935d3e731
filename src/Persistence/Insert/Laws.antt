-- ===== src/Persistence/Insert/Laws.antt =====
-- What an insertion leaves in the tables, and the success of a chain of fallible calls.
use deploy_mcp.Prelude.{
  sym, ◌≡◌, refl, Option, none, some, List, [], ok, err, find?, str_eq, eq_refl, arith,
  Option-cases, inl, inr, ◌∙◌, ap,
}
use deploy_mcp.Ports.{RepositoryError, RepositoryResult}
use deploy_mcp.Domain.Deployment.{Deployment}
use deploy_mcp.Persistence.Schema.{Database, DeploymentRow, deployment_row}
use deploy_mcp.Persistence.Schema.Laws.{find?-append}
use deploy_mcp.Persistence.Insert.{
  Codec, ◌>>=◌, Violation, insert_deployment, insert_violation, inserted,
  insert_deployment_model_metadata,
}

pub bind-ok :
    {A B : Type 0} (m : RepositoryResult A) (f : A → RepositoryResult B) {b : B}
    → (m >>= f) ≡ ok b
    → (a : A) × (m ≡ ok a) × (f a ≡ ok b)
bind-ok (ok a) f h = (a, refl, h)
bind-ok (err e) f h = cc

insert_violation-absent :
    (row : DeploymentRow) (db : Database)
    → insert_violation row db ≡ none
    → deployment_row row.id db ≡ none
unfolding insert_violation
insert_violation-absent row db h = elim (Option-cases (deployment_row row.id db)) [
  | inl absent ↦ absent
  | inr (r, here) ↦ ground arith
]

tables : RepositoryResult Database → List DeploymentRow
tables (ok db) = db.deployments
tables (err e) = []

inserted-row :
    (refusal : Violation → RepositoryError) (row : DeploymentRow) (db db' : Database)
    (v : Option Violation)
    → (v ≡ none → deployment_row row.id db ≡ none)
    → inserted refusal row db v ≡ ok db'
    → deployment_row row.id db' ≡ some row
unfolding inserted deployment_row tables
inserted-row refusal row db db' (some v) absent h = cc
inserted-row refusal row db db' none absent h =
    ap (λ (r : RepositoryResult Database). find? (λ x. str_eq x.id row.id) (tables r)) (sym h)
    ∙ find?-append _ db.deployments row (absent refl) (eq_refl row.id)

-- An inserted row is the one of its identifier.
pub insert_deployment-row :
    (refusal : Violation → RepositoryError) (row : DeploymentRow) (db db' : Database)
    → insert_deployment refusal row db ≡ ok db'
    → deployment_row row.id db' ≡ some row
unfolding insert_deployment
insert_deployment-row refusal row db db' h =
    inserted-row refusal row db db' (insert_violation row db) (insert_violation-absent row db) h

pub metadata-deployments :
    (codec : Codec) (d : Deployment) (db db' : Database)
    → insert_deployment_model_metadata codec d db ≡ ok db'
    → db'.deployments ≡ db.deployments
unfolding insert_deployment_model_metadata
metadata-deployments codec d db db' h = ground arith

pub metadata-operations :
    (codec : Codec) (d : Deployment) (db db' : Database)
    → insert_deployment_model_metadata codec d db ≡ ok db'
    → db'.rollback_operations ≡ db.rollback_operations
unfolding insert_deployment_model_metadata
metadata-operations codec d db db' h = ground arith
