-- ===== src/Domain/Release/Laws.antt =====
-- What the constructors of identifiers and releases accept, and that a stored identity is accepted
-- again unchanged.
use deploy_mcp.Prelude.{ℕ, String, ◌≡◌, ◌≢◌, refl, true, false, ◌↔◌, some, ok, arith, eq_iff}
use deploy_mcp.Text.{is_blank, to_ascii_lowercase}
use deploy_mcp.Text.Laws.{lower-lower, hexdigits-lower, len-lower}
use deploy_mcp.Domain.Release.{
  DeploymentMechanismKind, jar_systemd, docker_compose, kind_name, parse_kind, kind_eq, Artifact,
  is_checksum, artifact_new, artifact_eq, release_eq, ReleaseIdentity, id_new, local_file,
  container_image,
}

pub id_new-ok : (name value : String) {v : String} → id_new name value ≡ ok v → v ≡ value
unfolding id_new
id_new-ok name value h = ground arith

-- A checksum in lower case is a checksum exactly when the given one is.
pub is_checksum-lower : (s : String) → is_checksum (to_ascii_lowercase s) ≡ is_checksum s
unfolding is_checksum
is_checksum-lower s = rw (len-lower s, hexdigits-lower s)

-- `Artifact::new` accepts exactly a version that is not blank, a size that is not zero and a
-- checksum of 64 hexadecimal digits; it keeps the version and the size and lowers the checksum.
pub artifact_new_iff :
    (version : String) (size : ℕ) (sha256 : String) (a : Artifact)
    → (artifact_new version size sha256 ≡ ok a) ↔ (
        (is_blank version ≡ false)
        × (size ≢ 0)
        × (is_checksum sha256 ≡ true)
        × (a ≡ record { version = version; size_bytes = size; sha256 = to_ascii_lowercase sha256 }))
unfolding artifact_new
artifact_new_iff version size sha256 a = (λ h. ground arith, λ h. ground arith)

-- Reading back the three columns of an accepted artifact gives the same artifact.
pub artifact_new-stored :
    (version : String) (size : ℕ) (sha256 : String) (a : Artifact)
    → artifact_new version size sha256 ≡ ok a
    → artifact_new a.version a.size_bytes a.sha256 ≡ ok a
unfolding artifact_new
artifact_new-stored version size sha256 a h =
    ground (arith, is_checksum-lower sha256, lower-lower sha256)

pub parse_kind-kind_name : (k : DeploymentMechanismKind) → parse_kind (kind_name k) ≡ some k
unfolding parse_kind kind_name
parse_kind-kind_name jar_systemd = refl
parse_kind-kind_name docker_compose = refl

pub kind_eq→eq : (j k : DeploymentMechanismKind) → kind_eq j k ≡ true → j ≡ k
unfolding kind_eq
kind_eq→eq j k h = ground arith

pub kind_eq_self : (k : DeploymentMechanismKind) → kind_eq k k ≡ true
unfolding kind_eq
kind_eq_self k = ground arith

-- The derived `==` on releases decides equality.
pub artifact_eq_iff : (a b : Artifact) → (artifact_eq a b ≡ true) ↔ (a ≡ b)
unfolding artifact_eq
artifact_eq_iff a b = ground (arith, eq_iff a.version b.version, eq_iff a.sha256 b.sha256)

pub release_eq→eq : (r s : ReleaseIdentity) → release_eq r s ≡ true → r ≡ s
unfolding release_eq
release_eq→eq (local_file a) (local_file b) h =
    ground (arith, eq_iff a.version b.version, eq_iff a.sha256 b.sha256)
release_eq→eq (container_image a) (container_image b) h =
    ground (
      arith,
      eq_iff a.version b.version,
      eq_iff a.repository b.repository,
      eq_iff a.digest b.digest,
    )
release_eq→eq (local_file a) (container_image b) h = cc
release_eq→eq (container_image a) (local_file b) h = cc

pub release_eq_self : (r : ReleaseIdentity) → release_eq r r ≡ true
unfolding release_eq
release_eq_self (local_file a) =
    ground (arith, eq_iff a.version a.version, eq_iff a.sha256 a.sha256)
release_eq_self (container_image a) =
    ground (
      arith,
      eq_iff a.version a.version,
      eq_iff a.repository a.repository,
      eq_iff a.digest a.digest,
    )
