-- ===== src/Persistence/Decode/Laws.antt =====
-- What a decoded deployment has from its row.
use deploy_mcp.Prelude.{String, [], none, some, ◌≡◌, Option, ok, arith, Result-cases, inl, inr}
use deploy_mcp.Domain.Release.{id_new}
use deploy_mcp.Domain.Release.Laws.{id_new-ok}
use deploy_mcp.Domain.Deployment.{Deployment, rehydrate_with_release}
use deploy_mcp.Persistence.Names.{parse_state}
use deploy_mcp.Persistence.Schema.{
  DeploymentRow, MetadataRow, Database, Connection, deployment_row, metadata_row, query,
}
use deploy_mcp.Persistence.Insert.{Codec}
use deploy_mcp.Persistence.Decode.{get, decode_optional, corrupt_domain, decode_deployment}

pub decode_deployment-row :
    (codec : Codec) (row : DeploymentRow) (model : Option MetadataRow) {e : Deployment}
    → decode_deployment codec row model ≡ ok e
    → (e.id ≡ row.id) × (parse_state row.state ≡ ok e.state)
unfolding decode_deployment corrupt_domain rehydrate_with_release
decode_deployment-row codec row model {e} h = elim (Result-cases (id_new "DeploymentId" row.id)) [
  | inl (id, accepted) ↦ ground (arith, id_new-ok "DeploymentId" row.id accepted)
  | inr (e, refused) ↦ ground arith
]

decode_optional-found :
    (codec : Codec) (db : Database) (row : Option DeploymentRow) (found : DeploymentRow)
    (d : Deployment)
    → row ≡ some found
    → decode_deployment codec found (metadata_row found.id db) ≡ ok d
    → decode_optional codec row db ≡ ok (some d)
unfolding decode_optional
decode_optional-found codec db none found d h e = cc
decode_optional-found codec db (some row) found d h e = ground arith

-- A row that is found and decoded is what a query without a storage error returns.
pub get-found :
    (codec : Codec) (id : String) (c : Connection) (row : DeploymentRow) (d : Deployment)
    → c.faults ≡ []
    → deployment_row id c.database ≡ some row
    → decode_deployment codec row (metadata_row row.id c.database) ≡ ok d
    → get codec id c ≡ ok (some d)
unfolding get query
get-found codec id c row d calm found e =
    ground
      (arith, decode_optional-found codec c.database (deployment_row id c.database) row d found e)
