-- ===== src/Domain/Release.antt =====
-- src/domain/deployment.rs: identifiers, mechanism kinds and release identities, with the checks
-- that their constructors make.
pub mod Laws
use Prim.Native.String.{[], ◌∷◌, ◌++◌, len}
use deploy_mcp.Prelude.{
  ℕ, String, Bool, true, false, not, ◌&&◌, ◌||◌, Option, none, some, Result, ok, err, ◌==◌, str_eq,
  if◌then◌else◌,
}
use deploy_mcp.Domain.State.{DeploymentState}
use deploy_mcp.Text.{is_ascii_hexdigit, all_chars, is_blank, to_ascii_lowercase, strip_prefix}

pub data DeploymentError : Type 0 where
  invalid_identifier : String → DeploymentError
  invalid_artifact_version invalid_artifact_size invalid_artifact_checksum : DeploymentError
  invalid_container_repository invalid_container_digest : DeploymentError
  invalid_transition : DeploymentState → DeploymentState → DeploymentError
  invalid_plan_target : DeploymentError

-- The three newtypes that `id_type!` declares hold the text that `new` has accepted.
abbrev pub ApplicationId : Type 0
ApplicationId = String

abbrev pub EnvironmentId : Type 0
EnvironmentId = String

abbrev pub DeploymentId : Type 0
DeploymentId = String

-- `$name::new`, with the newtype's name.
unfoldable pub id_new : String → String → Result DeploymentError String
id_new name value = if is_blank value then err (invalid_identifier name) else ok value

pub data DeploymentMechanismKind : Type 0 where
  jar_systemd docker_compose : DeploymentMechanismKind

unfoldable pub kind_name : DeploymentMechanismKind → String
kind_name jar_systemd = "jar_systemd"
kind_name docker_compose = "docker_compose"

unfoldable pub parse_kind : String → Option DeploymentMechanismKind
parse_kind value =
    if str_eq value "jar_systemd"
    then some jar_systemd
    else if str_eq value "docker_compose"
    then some docker_compose
    else none

unfoldable pub kind_eq : DeploymentMechanismKind → DeploymentMechanismKind → Bool
kind_eq jar_systemd jar_systemd = true
kind_eq docker_compose docker_compose = true
kind_eq _ _ = false

pub record Artifact : Type 0 where
  pub version : String
  pub size_bytes : ℕ  -- u64
  pub sha256 : String

-- `value.len() != 64 || !value.bytes().all(is_ascii_hexdigit)`, negated.
unfoldable pub is_checksum : String → Bool
is_checksum value = len value == 64 && all_chars is_ascii_hexdigit value

unfoldable pub artifact_new : String → ℕ → String → Result DeploymentError Artifact
artifact_new version size_bytes sha256 =
    if is_blank version
    then err invalid_artifact_version
    else if size_bytes == 0
    then err invalid_artifact_size
    else if not (is_checksum sha256)
    then err invalid_artifact_checksum
    else ok
        (record { version = version; size_bytes = size_bytes; sha256 = to_ascii_lowercase sha256 })

pub record ContainerImageReleaseIdentity : Type 0 where
  pub version : String
  pub repository : String
  pub digest : String

container_digest :
    String → String → Option String → Result DeploymentError ContainerImageReleaseIdentity
container_digest version repository none = err invalid_container_digest
container_digest version repository (some hex) =
    if not (is_checksum hex)
    then err invalid_container_digest
    else ok (record {
      version = version;
      repository = repository;
      digest = "sha256:" ++ to_ascii_lowercase hex;
    })

unfoldable pub container_new :
    String → String → String → Result DeploymentError ContainerImageReleaseIdentity
unfolding container_digest
container_new version repository digest =
    if is_blank version
    then err invalid_artifact_version
    else if is_blank repository
    then err invalid_container_repository
    else container_digest version repository (strip_prefix "sha256:" digest)

pub data ReleaseIdentity : Type 0 where
  local_file : Artifact → ReleaseIdentity
  container_image : ContainerImageReleaseIdentity → ReleaseIdentity

unfoldable pub release_version : ReleaseIdentity → String
release_version (local_file artifact) = artifact.version
release_version (container_image image) = image.version

-- `ReleaseIdentity::local_file`.
unfoldable pub local_file? : ReleaseIdentity → Option Artifact
local_file? (local_file artifact) = some artifact
local_file? (container_image image) = none

unfoldable pub container_image? : ReleaseIdentity → Option ContainerImageReleaseIdentity
container_image? (local_file artifact) = none
container_image? (container_image image) = some image

-- The derived `==` on artifacts, images and releases.
unfoldable pub artifact_eq : Artifact → Artifact → Bool
artifact_eq a b =
    str_eq a.version b.version && a.size_bytes == b.size_bytes && str_eq a.sha256 b.sha256

unfoldable pub release_eq : ReleaseIdentity → ReleaseIdentity → Bool
unfolding artifact_eq
release_eq (local_file a) (local_file b) = artifact_eq a b
release_eq (container_image a) (container_image b) =
    str_eq a.version b.version && str_eq a.repository b.repository && str_eq a.digest b.digest
release_eq _ _ = false
