-- ===== src/Persistence/Recovery/Acknowledged/Readback.antt =====
-- An acknowledgement is read back as it was recorded.
use deploy_mcp.Prelude.{
  ℕ, ◌==◌, ◌≡◌, refl, sym, ap, ◌∙◌, Bool, true, false, some, List, [], ◌∷◌, ◌++◌, ok, any, find?,
  arith,
}
use deploy_mcp.Domain.Recovery.{
  RecoveryAcknowledgement, RecoveryAcknowledgementRecord, RecoverySubjectKind, acknowledgement_new,
}
use deploy_mcp.Persistence.Schema.{Database, Connection, AcknowledgementRow, query}
use deploy_mcp.Persistence.Schema.Laws.{transaction-ok}
use deploy_mcp.Persistence.Insert.Laws.{bind-ok}
use deploy_mcp.Persistence.Insert.{◌>>=◌}
use deploy_mcp.Persistence.Recovery.Names.{subject_kind_name, parse_subject_kind}
use deploy_mcp.Persistence.Recovery.{
  acknowledge_body, acknowledged, acknowledge_incident, incident_row, sqlite_id,
  acknowledgement_row, acknowledgement_violation,
}
use deploy_mcp.Persistence.Recovery.Acknowledged.{acknowledge_found-steps, sqlite_id-same}
use deploy_mcp.Persistence.Recovery.Queries.{
  acknowledgement, decode_acknowledgement, decode_optional,
}

-- The row that an acknowledgement writes under its identifier is found.
find?-new {ℓ} :
    {A : Type ℓ} (p : A → Bool) (rows : List A) (row : A)
    → any p rows ≡ false
    → p row ≡ true
    → find? p (rows ++ row ∷ []) ≡ some row
find?-new p [] row h k = ground arith
find?-new p (r ∷ rows) row h k = ground (arith, find?-new p rows row)

abbrev is_of : ℕ → AcknowledgementRow → Bool
is_of id row = row.incident_id == id

parse-subject_kind_name :
    (kind : RecoverySubjectKind) → parse_subject_kind (subject_kind_name kind) ≡ ok kind
unfolding parse_subject_kind subject_kind_name
parse-subject_kind_name RecoverySubjectKind.deployment = refl
parse-subject_kind_name RecoverySubjectKind.rollback_operation = refl

decode-acknowledgement_row :
    (a : RecoveryAcknowledgement) (now : ℕ)
    → acknowledgement_new a ≡ ok a
    → decode_acknowledgement (acknowledgement_row a now)
      ≡ ok (record { acknowledgement = a; acknowledged_at_unix_ms = now })
unfolding decode_acknowledgement acknowledgement_row
decode-acknowledgement_row a now h = ground (arith, parse-subject_kind_name a.subject_kind)

-- What an acknowledgement that succeeded wrote, and that none was there.
acknowledged-new :
    (a : RecoveryAcknowledgement) (now : ℕ) (db db' : Database) (r : RecoveryAcknowledgementRecord)
    → acknowledged a now db ≡ ok (r, db')
    → (r ≡ record { acknowledgement = a; acknowledged_at_unix_ms = now })
      × (any (is_of a.incident_id) db.acknowledgements ≡ false)
      × (db'.acknowledgements ≡ db.acknowledgements ++ acknowledgement_row a now ∷ [])
unfolding acknowledged acknowledgement_violation
acknowledged-new a now db db' r h = (ground arith, ground arith, ground arith)

own_row :
    (a : RecoveryAcknowledgement) (now : ℕ) → is_of a.incident_id (acknowledgement_row a now) ≡ true
unfolding acknowledgement_row
own_row a now = ground arith

-- The query finds the row under the identifier.
read_back :
    (id : ℕ) (c : Connection) (row : AcknowledgementRow) (r : RecoveryAcknowledgementRecord)
    → sqlite_id id ≡ ok id
    → find? (is_of id) c.database.acknowledgements ≡ some row
    → decode_acknowledgement row ≡ ok r
    → acknowledgement id (record c { faults = [] }) ≡ ok (some r)
unfolding acknowledgement query
read_back id c row r small found decoded =
    ap
      (λ x. x >>= λ id.
        query (λ db. decode_optional decode_acknowledgement (find? (is_of id) db.acknowledgements))
          (record c { faults = [] }))
      small
    ∙ ap (decode_optional decode_acknowledgement) found
    ∙ ap (λ x. x >>= λ value. ok (some value)) decoded

-- An acknowledgement with accepted fields that was stored is read back as the record that was
-- returned, where no storage error meets the query.
pub acknowledge_incident-acknowledgement :
    (a : RecoveryAcknowledgement) (c : Connection) (r : RecoveryAcknowledgementRecord)
    → acknowledgement_new a ≡ ok a
    → (acknowledge_incident a c).0 ≡ ok r
    → acknowledgement a.incident_id (record (acknowledge_incident a c).1 { faults = [] })
      ≡ ok (some r)
unfolding acknowledge_incident acknowledge_body
acknowledge_incident-acknowledgement a c r valid h =
    let after = (acknowledge_incident a c).1.database in
    let (id, small, h) =
      bind-ok (sqlite_id a.incident_id) _ (transaction-ok (acknowledge_body a) c h) in
    let (row, found, named, h) =
      acknowledge_found-steps a c.now c.database after (incident_row id c.database) r h in
    let (own, absent, stored) = acknowledged-new a c.now c.database after r h in
    let same = sqlite_id-same a.incident_id id small in
    let here : find? (is_of a.incident_id) after.acknowledgements
        ≡ some (acknowledgement_row a c.now) =
      ap (find? (is_of a.incident_id)) stored
      ∙ find?-new (is_of a.incident_id) c.database.acknowledgements (acknowledgement_row a c.now)
          absent (own_row a c.now) in
    read_back a.incident_id (acknowledge_incident a c).1 (acknowledgement_row a c.now) r
      (small ∙ ap ok same) here (decode-acknowledgement_row a c.now valid ∙ ap ok (sym own))
