-- ===== src/Application/Artifact.antt =====
-- src/application/artifact_access.rs and `load_artifact` of src/application/deploy.rs: the local file
-- that a request names. The file system and the hash function are parameters.
pub mod Laws
use deploy_mcp.Prelude.{
  ℕ, ◌+◌, ◌^◌, ◌-◌, min, String, Bool, true, false, not, ◌||◌, Option, none, some, List, [], ◌∷◌,
  ◌++◌, Result, ok, err, ltb, ◌==◌, any, is_empty, length, if◌then◌else◌,
}
use deploy_mcp.Text.{is_blank}
use deploy_mcp.Config.{LocalArtifactConfig}
use deploy_mcp.Error.{
  AppError, app_error, invalid_configuration_error, invalid_request, artifact_path_not_allowed,
  artifact_not_found, invalid_artifact, artifact_changed, format, text, number, plain,
}
use deploy_mcp.Domain.Release.{Artifact, artifact_new, DeploymentError}

-- What the service asks of the file system. A path is canonical once `canonicalize` has given it; `none`
-- is an I/O error. `reads` are the results of reading an open file until its end.
pub record FileSystem : Type 0 where
  pub canonicalize : String → Option String
  pub is_dir : String → Option Bool
  pub has_parent : String → Bool
  pub starts_with : String → String → Bool
  pub opens : String → Bool
  pub is_utf8 : String → Bool
  pub metadata : String → Option (Bool × ℕ)
  pub reads : String → List (Option (List ℕ))

-- SHA-256 of the bytes, in lower-case hexadecimal.
abbrev pub Digest : Type 0
Digest = List ℕ → String

module _ (fs : FileSystem) where
  checked_root : String → Option Bool → Result AppError String
  checked_root root none = err (
      invalid_configuration_error
        (format "cannot stat local artifact allowed root {}: {error}" (text root ∷ [])))
  checked_root root (some false) = err (
      invalid_configuration_error
        (format "local artifact allowed root must be a directory: {}" (text root ∷ [])))
  checked_root root (some true) =
      if fs.has_parent root
      then ok root
      else err (
          invalid_configuration_error (
            format "canonical local artifact allowed root must not resolve to a filesystem root: {}"
              (text root ∷ [])))

  canonical_root : String → Option String → Result AppError String
  unfolding checked_root
  canonical_root configured none = err (
      invalid_configuration_error (
        format "cannot resolve local artifact allowed root {configured_root}: {error}"
          (text configured ∷ [])))
  canonical_root configured (some root) = checked_root root (fs.is_dir root)

  push_root : Result AppError String → Result AppError (List String) → Result AppError (List String)
  push_root (err e) rest = err e
  push_root (ok root) (err e) = err e
  push_root (ok root) (ok roots) = ok (root ∷ roots)

  -- The loop over the configured roots; the first error ends it.
  unfoldable pub canonical_roots : List String → Result AppError (List String)
  unfolding canonical_root push_root
  canonical_roots [] = ok []
  canonical_roots (configured ∷ rest) =
      push_root (canonical_root configured (fs.canonicalize configured)) (canonical_roots rest)

  resolved : String → Result AppError (List String) → Option String → Result AppError String
  resolved requested (err e) found = err e
  resolved requested (ok roots) none = err (
      app_error artifact_not_found
        (format "cannot resolve artifact {requested_path}: {error}" (text requested ∷ [])))
  resolved requested (ok roots) (some path) =
      if not (any (fs.starts_with path) roots)
      then err (
          app_error artifact_path_not_allowed (
            format "artifact path is outside configured local artifact roots: {}" (text path ∷ [])))
      else if fs.is_utf8 path
      then ok path
      else err (app_error invalid_artifact (plain "canonical artifact path is not valid UTF-8"))

  unfoldable pub resolve_allowed_artifact_path :
      LocalArtifactConfig → String → Result AppError String
  unfolding resolved
  resolve_allowed_artifact_path policy requested_path =
      if is_blank requested_path
      then err (app_error invalid_request (plain "artifact_path must not be empty"))
      else if is_empty policy.allowed_roots
      then err (
          app_error artifact_path_not_allowed
            (plain "local artifact access is disabled because no allowed roots are configured"))
      else resolved requested_path (canonical_roots policy.allowed_roots)
          (fs.canonicalize requested_path)

-- `u64::saturating_add`.
abbrev pub saturating_add : ℕ → ℕ → ℕ
saturating_add a b = min (a + b) (2 ^ 64 - 1)

-- The loop of reads, with the size and the bytes so far: it ends at an empty read, and has no result
-- where a read fails.
unfoldable pub read_all : ℕ → List ℕ → List (Option (List ℕ)) → Option (ℕ × List ℕ)
read_all size bytes [] = some (size, bytes)
read_all size bytes (none ∷ rest) = none
read_all size bytes (some [] ∷ rest) = some (size, bytes)
read_all size bytes (some (b ∷ chunk) ∷ rest) =
    read_all (saturating_add size (length (b ∷ chunk))) (bytes ++ b ∷ chunk) rest

unsound_artifact : Result DeploymentError Artifact → Result AppError Artifact
unsound_artifact (ok artifact) = ok artifact
unsound_artifact (err e) = err (app_error invalid_artifact (plain "{error}"))

hashed : Digest → String → String → ℕ → Option (ℕ × List ℕ) → Result AppError Artifact
unfolding unsound_artifact
hashed digest version path expected none =
    err (
      app_error artifact_not_found (format "cannot read artifact {path}: {error}" (text path ∷ [])))
hashed digest version path expected (some (actual, bytes)) =
    if not (actual == expected)
    then err (
        app_error artifact_changed (
          format "artifact size changed while hashing: metadata={expected_size}, read={actual_size}"
            (number expected ∷ number actual ∷ [])))
    else unsound_artifact (artifact_new version actual (digest bytes))

measured : FileSystem → Digest → String → String → Option (Bool × ℕ) → Result AppError Artifact
unfolding hashed
measured fs digest version path none =
    err (
      app_error artifact_not_found (format "cannot stat artifact {path}: {error}" (text path ∷ [])))
measured fs digest version path (some (is_file, size)) =
    if not is_file || size == 0
    then err (
        app_error invalid_artifact
          (format "artifact must be a non-empty regular file: {path}" (text path ∷ [])))
    else hashed digest version path size (read_all 0 [] (fs.reads path))

unfoldable pub load_artifact : FileSystem → Digest → String → String → Result AppError Artifact
unfolding measured
load_artifact fs digest version path =
    if fs.opens path
    then measured fs digest version path (fs.metadata path)
    else err (
        app_error artifact_not_found
          (format "cannot open artifact {path}: {error}" (text path ∷ [])))
