-- ===== src/Persistence/Recovery/Acknowledged.antt =====
-- What an acknowledgement does: it is accepted for the waiting incident that it names, and for no other.
pub mod Readback
use deploy_mcp.Prelude.{
  ℕ, ◌≡◌, refl, sym, ap, ◌∙◌, true, false, Option, none, some, List, [], ◌∷◌, ◌++◌, ok, any, arith,
  eq_iff,
}
use deploy_mcp.Domain.Recovery.{
  RecoverySubjectKind, RecoveryIncident, RecoveryAcknowledgement, RecoveryAcknowledgementRecord,
  is_manual, subject_kind_eq,
}
use deploy_mcp.Persistence.Schema.{Database, Connection, IncidentRow}
use deploy_mcp.Persistence.Schema.Laws.{transaction-ok, transaction-keeps}
use deploy_mcp.Persistence.Insert.Laws.{bind-ok}
use deploy_mcp.Persistence.Guarded.{Guarded, Same, Guarded-Same}
use deploy_mcp.Persistence.Recovery.Names.{decode_incident}
use deploy_mcp.Persistence.Recovery.{
  acknowledge_body, acknowledge_found, acknowledged, acknowledge_incident, incident_row,
  validate_acknowledgement, sqlite_id, is_waiting, resolve_incidents, acknowledgement_row,
}

acknowledged-Same :
    (a : RecoveryAcknowledgement) (now : ℕ) (db db' : Database) (r : RecoveryAcknowledgementRecord)
    → acknowledged a now db ≡ ok (r, db')
    → Same db db'
unfolding acknowledged
acknowledged-Same a now db db' r h = (ground arith, ground arith)

-- The incident that an accepted acknowledgement names: manual, unresolved, and of the same subject.
abbrev pub Names : RecoveryAcknowledgement → RecoveryIncident → Type 0
Names a incident =
    (is_manual incident.disposition ≡ true)
    × (incident.resolved_at_unix_ms ≡ none)
    × (incident.application ≡ a.application)
    × (incident.environment ≡ a.environment)
    × (incident.subject_kind ≡ a.subject_kind)
    × (incident.subject_id ≡ a.subject_id)

subject_kind_eq→eq : (s t : RecoverySubjectKind) → subject_kind_eq s t ≡ true → s ≡ t
unfolding subject_kind_eq
subject_kind_eq→eq s t h = ground arith

validate_acknowledgement-Names :
    (incident : RecoveryIncident) (a : RecoveryAcknowledgement)
    → validate_acknowledgement incident a ≡ ok tt
    → Names a incident
unfolding validate_acknowledgement
validate_acknowledgement-Names incident a h = (
  ground arith,
  ground arith,
  ground (arith, eq_iff incident.application a.application),
  ground (arith, eq_iff incident.environment a.environment),
  ground (arith, subject_kind_eq→eq incident.subject_kind a.subject_kind),
  ground (arith, eq_iff incident.subject_id a.subject_id),
)

-- The steps of an acknowledgement that succeeded.
acknowledge_found-steps :
    (a : RecoveryAcknowledgement) (now : ℕ) (db db' : Database) (row : Option IncidentRow)
    (r : RecoveryAcknowledgementRecord)
    → acknowledge_found a now db row ≡ ok (r, db')
    → (found : IncidentRow) × (row ≡ some found)
      × ((incident : RecoveryIncident) × (decode_incident found ≡ ok incident) × Names a incident)
      × (acknowledged a now db ≡ ok (r, db'))
unfolding acknowledge_found
acknowledge_found-steps a now db db' none r h = cc
acknowledge_found-steps a now db db' (some row) r h =
    let (incident, decoded, h) = bind-ok (decode_incident row) _ h in
    let (u, valid, h) = bind-ok (validate_acknowledgement incident a) _ h in
    (row, refl, (incident, decoded, validate_acknowledgement-Names incident a valid), h)

pub acknowledge_incident-Guarded :
    (a : RecoveryAcknowledgement) (c : Connection)
    → Guarded c.database
    → Guarded (acknowledge_incident a c).1.database
unfolding acknowledge_incident acknowledge_body
acknowledge_incident-Guarded a c g =
    transaction-keeps (acknowledge_body a) c Guarded
      (λ r db' h.
        let (id, small, h) = bind-ok (sqlite_id a.incident_id) _ h in
        let (row, found, named, h) =
          acknowledge_found-steps a c.now c.database db' (incident_row id c.database) r h in
        Guarded-Same c.database db' g (acknowledged-Same a c.now c.database db' r h))
      g

-- Nothing waits under the identifier once the acknowledgement is stored.
is_waiting-resolve_incidents :
    (id now : ℕ) (rows : List IncidentRow)
    → any (is_waiting id) (resolve_incidents id now rows) ≡ false
unfolding resolve_incidents is_waiting
is_waiting-resolve_incidents id now [] = refl
is_waiting-resolve_incidents id now (row ∷ rows) =
    ground (arith, is_waiting-resolve_incidents id now rows)

-- What an acknowledgement that returns this record found and stored.
abbrev pub Acknowledges :
    RecoveryAcknowledgement → Database → RecoveryAcknowledgementRecord → Database → Type 0
Acknowledges a db r db' =
    ((row : IncidentRow) × (incident_row a.incident_id db ≡ some row)
      × ((incident : RecoveryIncident) × (decode_incident row ≡ ok incident) × Names a incident))
    × (any (is_waiting a.incident_id) db.recovery_incidents ≡ true)
    × (any (is_waiting a.incident_id) db'.recovery_incidents ≡ false)
    × (r.acknowledgement ≡ a)
    × (db'.acknowledgements
        ≡ db.acknowledgements ++ acknowledgement_row a r.acknowledged_at_unix_ms ∷ [])

acknowledged-stored :
    (a : RecoveryAcknowledgement) (now : ℕ) (db db' : Database) (r : RecoveryAcknowledgementRecord)
    → acknowledged a now db ≡ ok (r, db')
    → (any (is_waiting a.incident_id) db.recovery_incidents ≡ true)
      × (any (is_waiting a.incident_id) db'.recovery_incidents ≡ false)
      × (r.acknowledgement ≡ a)
      × (db'.acknowledgements
          ≡ db.acknowledgements ++ acknowledgement_row a r.acknowledged_at_unix_ms ∷ [])
unfolding acknowledged
acknowledged-stored a now db db' r h = (
  ground arith,
  ground (arith, is_waiting-resolve_incidents a.incident_id now db.recovery_incidents),
  ground arith,
  ground arith,
)

sqlite_id-same : (value id : ℕ) → sqlite_id value ≡ ok id → id ≡ value
unfolding sqlite_id
sqlite_id-same value id h = ground arith

-- An acknowledgement that is accepted names a manual incident that was waiting, with its exact application,
-- environment and subject; afterwards no incident waits under the identifier, and the
-- acknowledgement is stored.
pub acknowledge_incident-Acknowledges :
    (a : RecoveryAcknowledgement) (c : Connection) (r : RecoveryAcknowledgementRecord)
    → (acknowledge_incident a c).0 ≡ ok r
    → Acknowledges a c.database r (acknowledge_incident a c).1.database
unfolding acknowledge_incident acknowledge_body
acknowledge_incident-Acknowledges a c r h =
    let after = (acknowledge_incident a c).1.database in
    let (id, small, h) =
      bind-ok (sqlite_id a.incident_id) _ (transaction-ok (acknowledge_body a) c h) in
    let (row, found, named, h) =
      acknowledge_found-steps a c.now c.database after (incident_row id c.database) r h in
    let (waiting, settled, own, stored) = acknowledged-stored a c.now c.database after r h in
    (
      (
        row,
        ap (λ i. incident_row i c.database) (sym (sqlite_id-same a.incident_id id small)) ∙ found,
        named,
      ),
      waiting,
      settled,
      own,
      stored,
    )
