-- ===== src/Persistence/Reserve/Keeps.antt =====
-- A reservation keeps the exclusivity of active rows.
use deploy_mcp.Prelude.{ℕ, String, ◌≡◌, Option, none, some, ok, find?, arith}
use mathlib.Core.Path.{subst}
use deploy_mcp.Ports.{DeploymentReservation}
use deploy_mcp.Domain.Release.{Artifact}
use deploy_mcp.Domain.Deployment.{Deployment}
use deploy_mcp.Persistence.Schema.{Database, Connection, DeploymentRow, metadata_row}
use deploy_mcp.Persistence.Schema.Laws.{transaction-keeps}
use deploy_mcp.Persistence.Exclusive.{Exclusive}
use deploy_mcp.Persistence.Insert.{
  Codec, insert_deployment, new_row, local_artifact, sqlite_integer,
  insert_deployment_model_metadata,
}
use deploy_mcp.Persistence.Insert.Laws.{bind-ok, metadata-deployments, metadata-operations}
use deploy_mcp.Persistence.Insert.Keeps.{Appends, insert_deployment-Appends, Appends-Exclusive}
use deploy_mcp.Persistence.Decode.{decode_deployment}
use deploy_mcp.Persistence.Reserve.{
  bind_key, bound_row, reserve_new, reserve_bound, reserve_keyed, reserve_body, reserve, replayed,
  reservation_insert_error, refuse_version, conflicting_version,
}
use deploy_mcp.Persistence.Reserve.Laws.{bind_key-deployments, bind_key-operations}

module _ (codec : Codec) (d : Deployment) (artifact : Artifact) (size now : ℕ) (db db' : Database)
    (reservation : DeploymentReservation) (P : Database → Type 0)
    (grow : Appends (new_row d artifact size now) db db' → P db') (x : P db) where
  reserve_new-keeps :
      (key : Option String)
      → reserve_new codec d key artifact size now db ≡ ok (reservation, db')
      → P db'
  unfolding reserve_new
  reserve_new-keeps key h =
      let row = new_row d artifact size now in
      let (u, fresh, h) =
        bind-ok
          (refuse_version d artifact (find? (conflicting_version d artifact size) db.deployments)) _
          h in
      let (db1, h1, h) = bind-ok (insert_deployment (reservation_insert_error d) row db) _ h in
      let (db2, h2, h) = bind-ok (insert_deployment_model_metadata codec d db1) _ h in
      let (db3, h3, h) = bind-ok (bind_key key d.id now db2) _ h in
      let (same, others, idle, settled, free) =
        insert_deployment-Appends (reservation_insert_error d) row db db1 h1 in
      grow (
        ground (
          arith,
          bind_key-deployments key d.id now db2 db3 h3,
          metadata-deployments codec d db1 db2 h2,
          same,
        ),
        ground (
          arith,
          bind_key-operations key d.id now db2 db3 h3,
          metadata-operations codec d db1 db2 h2,
          others,
        ),
        idle,
        settled,
        free,
      )

  reserve_bound-keeps :
      (key : String) (row : Option DeploymentRow)
      → reserve_bound codec d key artifact size now db row ≡ ok (reservation, db')
      → P db'
  unfolding reserve_bound
  reserve_bound-keeps key none h = reserve_new-keeps (some key) h
  reserve_bound-keeps key (some row) h =
      let (e, decoded, h) = bind-ok (decode_deployment codec row (metadata_row row.id db)) _ h in
      let (r, again, h) = bind-ok (replayed key d e) _ h in
      let same : db ≡ db' = ground arith in subst P same x

  reserve_keyed-keeps :
      (key : Option String)
      → reserve_keyed codec d key artifact size now db ≡ ok (reservation, db')
      → P db'
  unfolding reserve_keyed
  reserve_keyed-keeps none h = reserve_new-keeps none h
  reserve_keyed-keeps (some key) h = reserve_bound-keeps key (bound_row key db) h

pub reserve-keeps :
    (codec : Codec) (d : Deployment) (key : Option String) (c : Connection) (P : Database → Type 0)
    → ((artifact : Artifact) (size : ℕ) (db : Database)
        → Appends (new_row d artifact size c.now) c.database db
        → P db)
    → P c.database
    → P (reserve codec d key c).1.database
unfolding reserve reserve_body
reserve-keeps codec d key c P grow x =
    transaction-keeps (reserve_body codec d key) c P
      (λ reservation db' h.
        let (artifact, a, h) = bind-ok (local_artifact d) _ h in
        let (size, s, h) = bind-ok (sqlite_integer artifact.size_bytes) _ h in
        reserve_keyed-keeps codec d artifact size c.now c.database db' reservation P
          (grow artifact size db') x key h)
      x

pub reserve-Exclusive :
    (codec : Codec) (d : Deployment) (key : Option String) (c : Connection)
    → Exclusive c.database.deployments
    → Exclusive (reserve codec d key c).1.database.deployments
reserve-Exclusive codec d key c x =
    reserve-keeps codec d key c (λ db. Exclusive db.deployments)
      (λ artifact size db a. Appends-Exclusive (new_row d artifact size c.now) c.database db x a) x
