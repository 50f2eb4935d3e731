-- ===== src/Application/Artifact/Laws.antt =====
-- What an accepted artifact path and a loaded artifact are.
use deploy_mcp.Prelude.{
  String, ◌≡◌, refl, true, false, Option, none, some, List, Result, ok, err, any, is_empty, arith,
}
use deploy_mcp.Config.{LocalArtifactConfig}
use deploy_mcp.Error.{AppError}
use deploy_mcp.Application.Artifact.{
  FileSystem, canonical_roots, resolved, resolve_allowed_artifact_path,
}

resolved-ok :
    (fs : FileSystem) (requested path : String) (roots : Result AppError (List String))
    (found : Option String)
    → resolved fs requested roots found ≡ ok path
    → (allowed : List String) × (roots ≡ ok allowed)
      × (found ≡ some path)
      × (any (fs.starts_with path) allowed ≡ true)
      × (fs.is_utf8 path ≡ true)
unfolding resolved
resolved-ok fs requested path (err e) found h = cc
resolved-ok fs requested path (ok roots) none h = cc
resolved-ok fs requested path (ok roots) (some p) h =
    (roots, refl, ground arith, ground arith, ground arith)

-- An accepted path is the canonical path of the requested one, is UTF-8 and is under one of the canonical
-- configured roots, all of which could be resolved; without configured roots nothing is accepted.
pub resolve_allowed_artifact_path-ok :
    (fs : FileSystem) (policy : LocalArtifactConfig) (requested path : String)
    → resolve_allowed_artifact_path fs policy requested ≡ ok path
    → (is_empty policy.allowed_roots ≡ false)
      × ((allowed : List String) × (canonical_roots fs policy.allowed_roots ≡ ok allowed)
          × (fs.canonicalize requested ≡ some path)
          × (any (fs.starts_with path) allowed ≡ true)
          × (fs.is_utf8 path ≡ true))
unfolding resolve_allowed_artifact_path
resolve_allowed_artifact_path-ok fs policy requested path h = (
  ground arith,
  resolved-ok fs requested path (canonical_roots fs policy.allowed_roots)
      (fs.canonicalize requested) (ground arith),
)
