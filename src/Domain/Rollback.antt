-- ===== src/Domain/Rollback.antt =====
-- src/domain/rollback.rs: rollback references, the fingerprint of the contract that they were made under, and
-- rollback operations. SHA-256 and the UTF-8 bytes of a text are parameters.
pub mod Fingerprint
use deploy_mcp.Prelude.{
  ℕ, ◌+◌, ◌-◌, ◌*◌, ◌/◌, ◌%◌, ◌^◌, min, String, Bool, true, false, not, ◌||◌, Option, none, some,
  List, [], ◌∷◌, ◌++◌, Result, ok, err, ◌==◌, if◌then◌else◌, str_eq,
}
use Prim.Native.String.{len}
use deploy_mcp.Text.{is_blank, to_ascii_lowercase}
use deploy_mcp.Domain.Release.{
  ApplicationId, EnvironmentId, DeploymentId, DeploymentMechanismKind, jar_systemd, docker_compose,
  kind_name, is_checksum,
}

pub data RollbackError : Type 0 where
  invalid_operation_id : RollbackError
  empty_capability : String → RollbackError
  invalid_contract_fingerprint mechanism_snapshot_mismatch : RollbackError

abbrev pub RollbackOperationId : Type 0
RollbackOperationId = String

unfoldable pub operation_id_new : String → Result RollbackError RollbackOperationId
operation_id_new value = if is_blank value then err invalid_operation_id else ok value

pub data RollbackReferenceState : Type 0 where
  active superseded consumed : RollbackReferenceState

pub record Sha256 : Type 0 where
  pub hex_digest : List ℕ → String
  pub utf8 : String → List ℕ

unfoldable pub non_empty : String → String → Result RollbackError String
non_empty kind value = if is_blank value then err (empty_capability kind) else ok value

pub record JarSystemdRollbackSnapshot : Type 0 where
  pub backup_path : String
  pub install_path : String
  pub rollback_task : String
  pub restart_task : String
  pub health_check_task : String

infixl 10 ◌>>=◌
abbrev ◌>>=◌ :
    {A B : Type 0} → Result RollbackError A → (A → Result RollbackError B) → Result RollbackError B
ok a >>= f = f a
err e >>= f = err e

-- `JarSystemdRollbackSnapshot::new`.
unfoldable pub snapshot_new :
    String → String → String → String → String → Result RollbackError JarSystemdRollbackSnapshot
snapshot_new backup_path install_path rollback_task restart_task health_check_task = do
  backup_path ← non_empty "backup_path" backup_path
  install_path ← non_empty "install_path" install_path
  rollback_task ← non_empty "rollback_task" rollback_task
  restart_task ← non_empty "restart_task" restart_task
  health_check_task ← non_empty "health_check_task" health_check_task
  ok (record {
    backup_path = backup_path;
    install_path = install_path;
    rollback_task = rollback_task;
    restart_task = restart_task;
    health_check_task = health_check_task;
  })

pub data RollbackMechanismSnapshot : Type 0 where
  jar_systemd_snapshot : JarSystemdRollbackSnapshot → RollbackMechanismSnapshot

-- `MechanismContractFingerprint` holds the text that `new` has accepted.
abbrev pub MechanismContractFingerprint : Type 0
MechanismContractFingerprint = String

unfoldable pub fingerprint_new : String → Result RollbackError MechanismContractFingerprint
fingerprint_new value =
    if not (is_checksum value)
    then err invalid_contract_fingerprint
    else ok (to_ascii_lowercase value)

-- `u64::to_be_bytes`.
unfoldable pub be_bytes : ℕ → List ℕ
be_bytes n =
    n / 2 ^ 56 % 256
    ∷ n / 2 ^ 48 % 256
    ∷ n / 2 ^ 40 % 256
    ∷ n / 2 ^ 32 % 256
    ∷ n / 2 ^ 24 % 256
    ∷ n / 2 ^ 16 % 256
    ∷ n / 2 ^ 8 % 256
    ∷ n % 256
    ∷ []

module _ (sha256 : Sha256) where
  -- The bytes that `hash_field` feeds to the hash: the length, and the text.
  unfoldable pub hash_field : String → List ℕ
  hash_field value = be_bytes (min (len value) (2 ^ 64 - 1)) ++ sha256.utf8 value

  unfoldable pub hash_fields : List String → List ℕ
  hash_fields [] = []
  hash_fields (value ∷ values) = hash_field value ++ hash_fields values

  abbrev pub contract_fields : String → JarSystemdRollbackSnapshot → List String
  contract_fields target snapshot =
      kind_name jar_systemd
      ∷ target
      ∷ snapshot.backup_path
      ∷ snapshot.install_path
      ∷ snapshot.rollback_task
      ∷ snapshot.restart_task
      ∷ snapshot.health_check_task
      ∷ []

  -- `MechanismContractFingerprint::jar_systemd`.
  unfoldable pub fingerprint_jar_systemd :
      String → JarSystemdRollbackSnapshot → MechanismContractFingerprint
  fingerprint_jar_systemd target snapshot =
      sha256.hex_digest (hash_fields (contract_fields target snapshot))

pub record RollbackReference : Type 0 where
  pub deployment_id : DeploymentId
  pub application : ApplicationId
  pub environment : EnvironmentId
  pub mechanism_kind : DeploymentMechanismKind
  pub target : String
  pub contract_fingerprint : MechanismContractFingerprint
  pub mechanism_snapshot : RollbackMechanismSnapshot
  pub state : RollbackReferenceState

unfoldable pub snapshot_matches_kind : DeploymentMechanismKind → RollbackMechanismSnapshot → Bool
snapshot_matches_kind jar_systemd (jar_systemd_snapshot s) = true
snapshot_matches_kind docker_compose (jar_systemd_snapshot s) = false

unfoldable pub rehydrate_with_snapshot :
    DeploymentId
    → ApplicationId
    → EnvironmentId
    → DeploymentMechanismKind
    → String
    → MechanismContractFingerprint
    → RollbackMechanismSnapshot
    → RollbackReferenceState
    → Result RollbackError RollbackReference
unfolding snapshot_matches_kind
rehydrate_with_snapshot id application environment kind target fingerprint snapshot state =
    if is_blank target
    then err (empty_capability "target")
    else if not (snapshot_matches_kind kind snapshot)
    then err mechanism_snapshot_mismatch
    else ok (record {
      deployment_id = id;
      application = application;
      environment = environment;
      mechanism_kind = kind;
      target = target;
      contract_fingerprint = fingerprint;
      mechanism_snapshot = snapshot;
      state = state;
    })

-- `RollbackReference::new_with_snapshot`: the same checks, for an active reference.
unfoldable pub new_with_snapshot :
    DeploymentId
    → ApplicationId
    → EnvironmentId
    → DeploymentMechanismKind
    → String
    → MechanismContractFingerprint
    → RollbackMechanismSnapshot
    → Result RollbackError RollbackReference
unfolding rehydrate_with_snapshot
new_with_snapshot id application environment kind target fingerprint snapshot =
    rehydrate_with_snapshot id application environment kind target fingerprint snapshot active

-- `RollbackReference::rehydrate`, for rows without metadata.
unfoldable pub rehydrate_jar :
    Sha256
    → DeploymentId
    → ApplicationId
    → EnvironmentId
    → String
    → JarSystemdRollbackSnapshot
    → RollbackReferenceState
    → RollbackReference
unfolding fingerprint_jar_systemd
rehydrate_jar sha256 id application environment target snapshot state = record {
  deployment_id = id;
  application = application;
  environment = environment;
  mechanism_kind = jar_systemd;
  target = target;
  contract_fingerprint = fingerprint_jar_systemd sha256 target snapshot;
  mechanism_snapshot = jar_systemd_snapshot snapshot;
  state = state;
}

pub data RollbackOperationState : Type 0 where
  started succeeded failed : RollbackOperationState

pub record RollbackOperation : Type 0 where
  pub id : RollbackOperationId
  pub source_deployment_id : DeploymentId
  pub application : ApplicationId
  pub environment : EnvironmentId
  pub state : RollbackOperationState

-- `RollbackOperation::new`.
unfoldable pub operation_new :
    RollbackOperationId → DeploymentId → ApplicationId → EnvironmentId → RollbackOperation
operation_new id source application environment = record {
  id = id;
  source_deployment_id = source;
  application = application;
  environment = environment;
  state = started;
}
