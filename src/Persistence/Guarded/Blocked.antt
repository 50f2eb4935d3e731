-- ===== src/Persistence/Guarded/Blocked.antt =====
-- An unresolved incident closes its environment: what the repositories refuse while it stands.
use deploy_mcp.Prelude.{String, ◌≡◌, refl, true, Option, some, ok, any}
use deploy_mcp.Error.{Message}
use deploy_mcp.Domain.Deployment.{Deployment}
use deploy_mcp.Domain.Rollback.{Sha256, RollbackOperation}
use deploy_mcp.Domain.Recovery.{RecoveryDisposition, RecoveryIncident, is_manual}
use deploy_mcp.Persistence.Schema.{Database, Connection, unresolved_in}
use deploy_mcp.Persistence.Insert.{Codec, new_row}
use deploy_mcp.Persistence.Reserve.{reserve}
use deploy_mcp.Persistence.Reserve.Keeps.{reserve-keeps}
use deploy_mcp.Persistence.Recovery.{recover_deployment}
use deploy_mcp.Persistence.Recovery.Laws.{recover_deployment-closes}
use deploy_mcp.Persistence.Rollback.Decode.{SnapshotCodec}
use deploy_mcp.Persistence.Rollback.Operations.{begin_operation}
use deploy_mcp.Persistence.Rollback.Operations.Keeps.{begin_operation-keeps}

abbrev pub Blocked : String → String → Database → Type 0
Blocked a e db = any (unresolved_in a e) db.recovery_incidents ≡ true

reserve-Blocked :
    (codec : Codec) (d : Deployment) (key : Option String) (c : Connection)
    → Blocked d.application d.environment c.database
    → (reserve codec d key c).1.database ≡ c.database
unfolding new_row
reserve-Blocked codec d key c b =
    reserve-keeps codec d key c (λ db. db ≡ c.database)
      (λ artifact size db (same, others, idle, settled, free). cc) refl

begin_operation-Blocked :
    (sha256 : Sha256) (codec : SnapshotCodec) (operation : RollbackOperation) (c : Connection)
    → Blocked operation.application operation.environment c.database
    → (begin_operation sha256 codec operation c).1.database ≡ c.database
begin_operation-Blocked sha256 codec operation c b =
    begin_operation-keeps sha256 codec operation c (λ db. db ≡ c.database) (λ db (clear, same). cc)
      refl

-- After a recovery that returned a manual incident, a reservation of the deployment's environment, for any
-- deployment and any idempotency key, and the begin of any rollback operation there leave the
-- database as it is.
pub recover_deployment-blocks :
    (d : Deployment) (disposition : RecoveryDisposition) (reason : Message) (c : Connection)
    (i : RecoveryIncident) (codec : Codec) (next : Deployment) (key : Option String)
    (sha256 : Sha256) (snapshots : SnapshotCodec) (operation : RollbackOperation)
    → (recover_deployment d disposition reason c).0 ≡ ok (some i)
    → is_manual disposition ≡ true
    → (next.application ≡ d.application) × (next.environment ≡ d.environment)
    → (operation.application ≡ d.application) × (operation.environment ≡ d.environment)
    → let after = (recover_deployment d disposition reason c).1 in
      ((reserve codec next key after).1.database ≡ after.database)
      × ((begin_operation sha256 snapshots operation after).1.database ≡ after.database)
recover_deployment-blocks d disposition reason c i codec next key sha256 snapshots operation h
      manual (na, ne) (oa, oe) =
    let (was, is, blocks) = recover_deployment-closes d disposition reason c i h in
    let after = (recover_deployment d disposition reason c).1 in
    let blocked = blocks manual in
    (
      reserve-Blocked codec next key after (cc (na, ne, blocked)),
      begin_operation-Blocked sha256 snapshots operation after (cc (oa, oe, blocked)),
    )
