-- ===== src/Persistence/Reserve/Readback.antt =====
-- What a new reservation has written is read back as the same deployment.
use deploy_mcp.Prelude.{
  ℕ, String, ◌≡◌, refl, ap, ◌∙◌, false, Option, none, some, [], ◌∷◌, ◌++◌, ok, find?, str_eq,
  eq_refl, arith, Option-cases, inl, inr,
}
use deploy_mcp.Text.{is_blank}
use deploy_mcp.Ports.{created, reused, DeploymentReservation}
use deploy_mcp.Domain.Release.{Artifact, artifact_new, local_file, id_new, kind_name}
use deploy_mcp.Domain.Release.Laws.{parse_kind-kind_name, artifact_eq_iff}
use deploy_mcp.Domain.Deployment.{Deployment, rehydrate_with_release}
use deploy_mcp.Persistence.Names.{parse_state-state_name}
use deploy_mcp.Persistence.Schema.{
  Database, Connection, DeploymentRow, MetadataRow, deployment_row, metadata_row,
}
use deploy_mcp.Persistence.Schema.Laws.{transaction-ok, find?-append}
use deploy_mcp.Persistence.Insert.{
  Codec, insert_deployment, new_row, local_artifact, sqlite_integer,
  insert_deployment_model_metadata,
}
use deploy_mcp.Persistence.Insert.Laws.{bind-ok, insert_deployment-row, metadata-deployments}
use deploy_mcp.Persistence.Decode.Laws.{get-found}
use deploy_mcp.Persistence.Decode.{decode_deployment, get}
use deploy_mcp.Persistence.Reserve.{
  bind_key, bound_row, reserve_new, reserve_bound, reserve_keyed, reserve_body, reserve, replayed,
  reservation_insert_error, refuse_version, conflicting_version,
}
use deploy_mcp.Persistence.Reserve.Laws.{bind_key-deployments, reserve-stored}
use deploy_mcp.Persistence.Stored.{stored_state}
use deploy_mcp.Persistence.Names.{state_name}

module _ (codec : Codec) (d : Deployment) where
  abbrev pub metadata_of : MetadataRow
  metadata_of = record {
    deployment_id = d.id;
    mechanism_kind = kind_name d.mechanism_kind;
    release_identity_json = codec.to_json d.release_identity;
  }

  metadata-row :
      (db db' : Database)
      → insert_deployment_model_metadata codec d db ≡ ok db'
      → metadata_row d.id db' ≡ some metadata_of
  unfolding insert_deployment_model_metadata metadata_row
  metadata-row db db' h = elim (Option-cases (metadata_row d.id db)) [
    | inl absent ↦
        let same : db'.metadata ≡ db.metadata ++ metadata_of ∷ [] = ground arith in
        ap (find? (λ (row : MetadataRow). str_eq row.deployment_id d.id)) same
        ∙ find?-append (λ (row : MetadataRow). str_eq row.deployment_id d.id) db.metadata
            metadata_of absent (eq_refl d.id)
    | inr (row, here) ↦ ground arith
  ]

  bind_key-metadata :
      (key : Option String) (now : ℕ) (db db' : Database)
      → bind_key key d.id now db ≡ ok db'
      → db'.metadata ≡ db.metadata
  unfolding bind_key
  bind_key-metadata key now db db' h = ground arith

  -- The two rows of the new deployment.
  abbrev Written : Artifact → ℕ → ℕ → Database → Type 0
  Written artifact size now db =
      (deployment_row d.id db ≡ some (new_row d artifact size now))
      × (metadata_row d.id db ≡ some metadata_of)

  module _ (artifact : Artifact) (size now : ℕ) (db db' : Database) where
    reserve_new-Written :
        (key : Option String)
        → reserve_new codec d key artifact size now db ≡ ok (created, db')
        → Written artifact size now db'
    unfolding reserve_new deployment_row metadata_row new_row
    reserve_new-Written key h =
        let row = new_row d artifact size now in
        let (u, fresh, h) =
          bind-ok
            (refuse_version d artifact (find? (conflicting_version d artifact size) db.deployments))
            _ h in
        let (db1, h1, h) = bind-ok (insert_deployment (reservation_insert_error d) row db) _ h in
        let (db2, h2, h) = bind-ok (insert_deployment_model_metadata codec d db1) _ h in
        let (db3, h3, h) = bind-ok (bind_key key d.id now db2) _ h in
        (
          ground (
            arith,
            insert_deployment-row (reservation_insert_error d) row db db1 h1,
            metadata-deployments codec d db1 db2 h2,
            bind_key-deployments key d.id now db2 db3 h3,
          ),
          ground (arith, metadata-row db1 db2 h2, bind_key-metadata key now db2 db3 h3),
        )

    reserve_bound-Written :
        (key : String) (row : Option DeploymentRow)
        → reserve_bound codec d key artifact size now db row ≡ ok (created, db')
        → Written artifact size now db'
    unfolding reserve_bound replayed
    reserve_bound-Written key none h = reserve_new-Written (some key) h
    reserve_bound-Written key (some row) h =
        let (e, decoded, h) = bind-ok (decode_deployment codec row (metadata_row row.id db)) _ h in
        (ground arith, ground arith)

    reserve_keyed-Written :
        (key : Option String)
        → reserve_keyed codec d key artifact size now db ≡ ok (created, db')
        → Written artifact size now db'
    unfolding reserve_keyed
    reserve_keyed-Written none h = reserve_new-Written none h
    reserve_keyed-Written (some key) h = reserve_bound-Written key (bound_row key db) h

  decode_deployment-new_row :
      (artifact : Artifact) (now : ℕ)
      → is_blank d.id ≡ false
      → is_blank d.application ≡ false
      → is_blank d.environment ≡ false
      → d.release_identity ≡ local_file artifact
      → artifact_new artifact.version artifact.size_bytes artifact.sha256 ≡ ok artifact
      → codec.from_json (codec.to_json d.release_identity) ≡ some d.release_identity
      → decode_deployment codec (new_row d artifact artifact.size_bytes now) (some metadata_of)
        ≡ ok d
  unfolding decode_deployment new_row rehydrate_with_release id_new
  decode_deployment-new_row artifact now i a e r n j = ground (
    arith,
    parse_kind-kind_name d.mechanism_kind,
    (artifact_eq_iff artifact artifact).1 refl,
    parse_state-state_name d.state,
  )

  local_artifact-file :
      (artifact found : Artifact)
      → d.release_identity ≡ local_file artifact
      → local_artifact d ≡ ok found
      → found ≡ artifact
  unfolding local_artifact
  local_artifact-file artifact found r h = ground arith

  -- A new reservation of a deployment with accepted identifiers and an accepted local artifact is read
  -- back by `get` as the same deployment, where the codec reads back the release that it has written and
  -- no storage error meets the query.
  pub reserve-get :
      (key : Option String) (c : Connection) (artifact : Artifact)
      → (reserve codec d key c).0 ≡ ok created
      → is_blank d.id ≡ false
      → is_blank d.application ≡ false
      → is_blank d.environment ≡ false
      → d.release_identity ≡ local_file artifact
      → artifact_new artifact.version artifact.size_bytes artifact.sha256 ≡ ok artifact
      → codec.from_json (codec.to_json d.release_identity) ≡ some d.release_identity
      → get codec d.id (record (reserve codec d key c).1 { faults = [] }) ≡ ok (some d)
  unfolding reserve reserve_body new_row sqlite_integer
  reserve-get key c artifact h i a e r n j =
      let after = (reserve codec d key c).1 in
      let done = transaction-ok (reserve_body codec d key) c h in
      let (found, is_file, done) = bind-ok (local_artifact d) _ done in
      let (size, fits, done) = bind-ok (sqlite_integer found.size_bytes) _ done in
      let (row, metadata) =
        reserve_keyed-Written found size c.now c.database after.database key done in
      let same : found ≡ artifact = local_artifact-file artifact found r is_file in
      let exact : size ≡ artifact.size_bytes = ground arith in
      let here : deployment_row d.id after.database
          ≡ some (new_row d artifact artifact.size_bytes c.now) =
        ground arith in
      get-found codec d.id (record after { faults = [] })
        (new_row d artifact artifact.size_bytes c.now) d refl here
        (ap (decode_deployment codec (new_row d artifact artifact.size_bytes c.now)) metadata
          ∙ decode_deployment-new_row artifact c.now i a e r n j)

-- The row holds the deployment, with each of its fields in the column of its own.
abbrev pub Holds : Deployment → Artifact → DeploymentRow → Type 0
Holds d artifact row =
    (row.id ≡ d.id)
    × (row.application_id ≡ d.application)
    × (row.environment_id ≡ d.environment)
    × (row.artifact_version ≡ artifact.version)
    × (row.artifact_size_bytes ≡ artifact.size_bytes)
    × (row.artifact_sha256 ≡ artifact.sha256)
    × (row.state ≡ state_name d.state)

module _ (codec : Codec) (d : Deployment) where
  -- The stored rows of a deployment.
  abbrev pub Recorded : Artifact → Database → Type 0
  Recorded artifact db =
      (row : DeploymentRow) × (deployment_row d.id db ≡ some row)
      × Holds d artifact row
      × (metadata_row d.id db ≡ some (metadata_of codec d))

  -- What the call has stored for the reservation that it answers.
  abbrev pub Answered : Artifact → DeploymentReservation → Database → Type 0
  Answered artifact created db = Recorded artifact db
  Answered artifact (reused e) db = stored_state e.id db ≡ some e.state

  -- A new reservation of a deployment with a local artifact has stored each field of the deployment and of
  -- its artifact, with its model metadata. A reused deployment is stored in the state that it is returned in.
  pub reserve-Answered :
      (key : Option String) (c : Connection) (artifact : Artifact)
      (reservation : DeploymentReservation)
      → d.release_identity ≡ local_file artifact
      → (reserve codec d key c).0 ≡ ok reservation
      → Answered artifact reservation (reserve codec d key c).1.database
  unfolding reserve reserve_body new_row sqlite_integer
  reserve-Answered key c artifact (reused e) r h = reserve-stored codec d key c (reused e) h
  reserve-Answered key c artifact created r h =
      let after = (reserve codec d key c).1 in
      let done = transaction-ok (reserve_body codec d key) c h in
      let (found, is_file, done) = bind-ok (local_artifact d) _ done in
      let (size, fits, done) = bind-ok (sqlite_integer found.size_bytes) _ done in
      let (row, metadata) =
        reserve_keyed-Written codec d found size c.now c.database after.database key done in
      let same : found ≡ artifact = local_artifact-file codec d artifact found r is_file in
      let exact : size ≡ found.size_bytes = ground arith in
      (
        new_row d found size c.now,
        row,
        (
          refl,
          refl,
          refl,
          ap (λ (a : Artifact). a.version) same,
          exact ∙ ap (λ (a : Artifact). a.size_bytes) same,
          ap (λ (a : Artifact). a.sha256) same,
          refl,
        ),
        metadata,
      )
