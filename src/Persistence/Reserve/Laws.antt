-- ===== src/Persistence/Reserve/Laws.antt =====
-- What `reserve` has stored when it succeeds.
use deploy_mcp.Prelude.{
  ℕ, String, ◌≡◌, refl, ap, ◌∙◌, Option, none, some, ok, arith, inl, inr, Result-cases,
}
use deploy_mcp.Ports.{DeploymentReservation, created, reused}
use deploy_mcp.Domain.Release.{Artifact}
use deploy_mcp.Domain.Deployment.{Deployment}
use deploy_mcp.Persistence.Schema.{
  IdempotencyRow, metadata_row, Database, Connection, DeploymentRow, deployment_row, MetadataRow,
}
use deploy_mcp.Persistence.Schema.Laws.{transaction-ok, deployment_row-id}
use deploy_mcp.Persistence.Stored.{
  stored_state, row_state-named, row_state-parsed, stored_state-row,
}
use deploy_mcp.Persistence.Insert.{
  Codec, insert_deployment, local_artifact, sqlite_integer, ◌>>=◌, new_row,
  insert_deployment_model_metadata,
}
use deploy_mcp.Persistence.Decode.Laws.{decode_deployment-row}
use deploy_mcp.Persistence.Insert.Laws.{bind-ok, insert_deployment-row, metadata-deployments}
use deploy_mcp.Persistence.Decode.{decode_deployment}
use deploy_mcp.Persistence.Reserve.{
  reservation_insert_error, joined, bind_key, bound_row, reserve_new, reserve_bound, reserve_keyed,
  reserve_body, reserve, replayed,
}

pub bind_key-deployments :
    (key : Option String) (id : String) (now : ℕ) (db db' : Database)
    → bind_key key id now db ≡ ok db'
    → db'.deployments ≡ db.deployments
unfolding bind_key
bind_key-deployments key id now db db' h = ground arith

pub bind_key-operations :
    (key : Option String) (id : String) (now : ℕ) (db db' : Database)
    → bind_key key id now db ≡ ok db'
    → db'.rollback_operations ≡ db.rollback_operations
unfolding bind_key
bind_key-operations key id now db db' h = ground arith

-- What the call has stored for the reservation that it answers.
abbrev pub Reserved : Deployment → DeploymentReservation → Database → Type 0
Reserved d created db = stored_state d.id db ≡ some d.state
Reserved d (reused e) db = stored_state e.id db ≡ some e.state

joined-own :
    (db : Database) (b : Option IdempotencyRow) (row : DeploymentRow)
    → joined db b ≡ some row
    → deployment_row row.id db ≡ some row
unfolding joined
joined-own db none row h = cc
joined-own db (some b) row h =
    ap (λ id. deployment_row id db) (deployment_row-id b.deployment_id db h) ∙ h

-- The row of a bound key is that of its own identifier.
bound_row-own :
    (key : String) (db : Database) (row : DeploymentRow)
    → bound_row key db ≡ some row
    → deployment_row row.id db ≡ some row
unfolding bound_row
bound_row-own key db row h = joined-own db _ row h

module _ (codec : Codec) where
  reserve_new-row :
      (d : Deployment) (key : Option String) (artifact : Artifact) (size now : ℕ)
      (db db' : Database) (reservation : DeploymentReservation)
      → reserve_new codec d key artifact size now db ≡ ok (reservation, db')
      → (reservation ≡ created) × (deployment_row d.id db' ≡ some (new_row d artifact size now))
  unfolding reserve_new deployment_row new_row
  reserve_new-row d key artifact size now db db' reservation h =
      let row = new_row d artifact size now in
      let insertion = insert_deployment (reservation_insert_error d) row db in
      elim (Result-cases insertion) [
        | inl (db1, h1) ↦ elim (Result-cases (insert_deployment_model_metadata codec d db1)) [
          | inl (db2, h2) ↦ elim (Result-cases (bind_key key d.id now db2)) [
            | inl (db3, h3) ↦ ground (
              arith,
              insert_deployment-row (reservation_insert_error d) row db db1 h1,
              metadata-deployments codec d db1 db2 h2,
              bind_key-deployments key d.id now db2 db3 h3,
            )
            | inr (e, h3) ↦ ground arith
          ]
          | inr (e, h2) ↦ ground arith
        ]
        | inr (e, h1) ↦ ground arith
      ]

  new-Reserved :
      (d : Deployment) (artifact : Artifact) (size now : ℕ) (db : Database)
      (reservation : DeploymentReservation)
      → reservation ≡ created
      → deployment_row d.id db ≡ some (new_row d artifact size now)
      → Reserved d reservation db
  unfolding new_row
  new-Reserved d artifact size now db created h row =
      stored_state-row d.id db row ∙ row_state-named (new_row d artifact size now) d.state refl
  new-Reserved d artifact size now db (reused e) h row = cc

  reserve_new-stored :
      (d : Deployment) (key : Option String) (artifact : Artifact) (size now : ℕ)
      (db db' : Database) (reservation : DeploymentReservation)
      → reserve_new codec d key artifact size now db ≡ ok (reservation, db')
      → Reserved d reservation db'
  reserve_new-stored d key artifact size now db db' reservation h =
      let (is_created, row) = reserve_new-row d key artifact size now db db' reservation h in
      new-Reserved d artifact size now db' reservation is_created row

  decoded-stored :
      (db : Database) (row : DeploymentRow) (model : Option MetadataRow) (e : Deployment)
      → deployment_row row.id db ≡ some row
      → decode_deployment codec row model ≡ ok e
      → stored_state e.id db ≡ some e.state
  decoded-stored db row model e found h =
      let (same_id, state) = decode_deployment-row codec row model h in
      ap (λ id. stored_state id db) same_id
      ∙ stored_state-row row.id db found
      ∙ row_state-parsed row state

  replayed-stored :
      (key : String) (d e : Deployment) (db db' : Database) (reservation : DeploymentReservation)
      → stored_state e.id db ≡ some e.state
      → ◌>>=◌ {B = DeploymentReservation × Database} (replayed key d e) (λ r. ok (r, db))
        ≡ ok (reservation, db')
      → Reserved d reservation db'
  unfolding replayed
  replayed-stored key d e db db' created s h = ground arith
  replayed-stored key d e db db' (reused x) s h = ground arith

  reserve_bound-stored :
      (d : Deployment) (key : String) (artifact : Artifact) (size now : ℕ) (db db' : Database)
      (reservation : DeploymentReservation) (row : Option DeploymentRow)
      → ((r : DeploymentRow) → row ≡ some r → deployment_row r.id db ≡ some r)
      → reserve_bound codec d key artifact size now db row ≡ ok (reservation, db')
      → Reserved d reservation db'
  unfolding reserve_bound
  reserve_bound-stored d key artifact size now db db' reservation none bound h =
      reserve_new-stored d (some key) artifact size now db db' reservation h
  reserve_bound-stored d key artifact size now db db' reservation (some row) bound h =
      let (e, decoded, h) = bind-ok (decode_deployment codec row (metadata_row row.id db)) _ h in
      replayed-stored key d e db db' reservation
        (decoded-stored db row (metadata_row row.id db) e (bound row refl) decoded) h

  reserve_keyed-stored :
      (d : Deployment) (key : Option String) (artifact : Artifact) (size now : ℕ)
      (db db' : Database) (reservation : DeploymentReservation)
      → reserve_keyed codec d key artifact size now db ≡ ok (reservation, db')
      → Reserved d reservation db'
  unfolding reserve_keyed
  reserve_keyed-stored d none artifact size now db db' reservation h =
      reserve_new-stored d none artifact size now db db' reservation h
  reserve_keyed-stored d (some key) artifact size now db db' reservation h =
      reserve_bound-stored d key artifact size now db db' reservation (bound_row key db)
        (bound_row-own key db) h

  -- A successful reservation is stored: the new deployment as it was given, the reused one as it is.
  pub reserve-stored :
      (d : Deployment) (key : Option String) (c : Connection) (reservation : DeploymentReservation)
      → (reserve codec d key c).0 ≡ ok reservation
      → Reserved d reservation (reserve codec d key c).1.database
  unfolding reserve reserve_body
  reserve-stored d key c reservation h =
      let done = transaction-ok (reserve_body codec d key) c h in
      let (artifact, is_artifact, h) = bind-ok (local_artifact d) _ done in
      let (size, fits, h) = bind-ok (sqlite_integer artifact.size_bytes) _ h in
      reserve_keyed-stored d key artifact size c.now c.database (reserve codec d key c).1.database
        reservation h
