-- ===== src/Config/Validate/Laws.antt =====
-- What a validated configuration guarantees to the services.
use deploy_mcp.Prelude.{
  ◌≤◌, ◌<◌, String, ◌≡◌, refl, Bool, true, false, not, Option, none, some, List, [], ◌∷◌, ok, err,
  length, lookup, arith, str_eq, Bool-cases, inl, inr,
}
use deploy_mcp.Text.{is_blank}
use deploy_mcp.Domain.Release.{jar_systemd}
use deploy_mcp.Domain.Release.Laws.{kind_eq→eq}
use deploy_mcp.Config.{
  Config, RuntimeConfig, EnvironmentConfig, ApplicationConfig, environment, environment_of,
  found_environment, application, found_application,
}
use deploy_mcp.Config.Validate.{
  PathRules, Check, then_check, each, validate, validate_runtime, validate_timeout,
  validate_verification_attempts, validate_verification_retry_delay,
  validate_rollback_reference_retention_days, validate_rollback_reference_cleanup_batch_size,
  validate_environment, validate_application, validate_applications, validate_mechanism,
  validate_reference, validate_absolute_path, validate_local_artifact_roots, max_timeout_ms,
  max_attempts, max_delay_ms, max_retention_days, max_batch_size, max_roots, validate_tasks,
  validate_optional_reference,
}

pub then_check-ok : (a b : Check) → then_check a b ≡ ok tt → (a ≡ ok tt) × (b ≡ ok tt)
then_check-ok (ok u) b h = (refl, h)
then_check-ok (err e) b h = cc

-- The checks of a list hold of an entry that is looked up.
each-lookup :
    {V : Type 0} (check : String × V → Check) (entries : List (String × V)) (k : String) (v : V)
    → each check entries ≡ ok tt
    → lookup k entries ≡ some v
    → (j : String) × (check (j, v) ≡ ok tt)
each-lookup check [] k v h e = cc
each-lookup check ((j, u) ∷ entries) k v h e = elim (Bool-cases (str_eq j k)) [
  | inl same ↦
      (j, let first = (then_check-ok (check (j, u)) (each check entries) h).0 in ground arith)
  | inr other ↦
      each-lookup check entries k v (then_check-ok (check (j, u)) (each check entries) h).1
        (ground arith)
]

-- The limits of a validated runtime.
abbrev pub Bounded : RuntimeConfig → Type 0
Bounded r =
    (0 < r.deployment_step_timeout_ms)
    × (r.deployment_step_timeout_ms ≤ max_timeout_ms)
    × (0 < r.explicit_rollback_timeout_ms)
    × (r.explicit_rollback_timeout_ms ≤ max_timeout_ms)
    × (0 < r.verification_max_attempts)
    × (r.verification_max_attempts ≤ max_attempts)
    × (r.verification_retry_delay_ms ≤ max_delay_ms)
    × (0 < r.rollback_reference_retention_days)
    × (r.rollback_reference_retention_days ≤ max_retention_days)
    × (0 < r.rollback_reference_cleanup_batch_size)
    × (r.rollback_reference_cleanup_batch_size ≤ max_batch_size)

validate_runtime-Bounded : (r : RuntimeConfig) → validate_runtime r ≡ ok tt → Bounded r
unfolding validate_runtime validate_timeout validate_verification_attempts
    validate_verification_retry_delay validate_rollback_reference_retention_days
    validate_rollback_reference_cleanup_batch_size
validate_runtime-Bounded r h = ground arith

module _ (paths : PathRules) where
  -- The parts of a validated configuration are validated.
  validate-parts :
      (config : Config)
      → validate paths config ≡ ok tt
      → (validate_runtime config.runtime ≡ ok tt)
        × (validate_local_artifact_roots paths config.local_artifacts.allowed_roots ≡ ok tt)
        × (each (validate_application paths) config.applications ≡ ok tt)
  unfolding validate validate_applications
  validate-parts config h = (ground arith, ground arith, ground arith)

  -- A validated configuration keeps every limit of the runtime, and at most 32 roots.
  pub validate-Bounded :
      (config : Config)
      → validate paths config ≡ ok tt
      → Bounded config.runtime × (length config.local_artifacts.allowed_roots ≤ max_roots)
  unfolding validate_local_artifact_roots
  validate-Bounded config h =
      let (runtime, roots, applications) = validate-parts config h in
      (validate_runtime-Bounded config.runtime runtime, ground arith)

  application-validated :
      (application_entry : String × ApplicationConfig)
      → validate_application paths application_entry ≡ ok tt
      → each (validate_environment paths) application_entry.1.environments ≡ ok tt
  unfolding validate_application
  application-validated (id, a) h = ground arith

  -- A task that is configured has a name.
  abbrev pub is_named : Option String → Bool
  is_named none = true
  is_named (some task) = not (is_blank task)

  validate_optional_reference-is_named :
      (kind : String) (task : Option String)
      → validate_optional_reference kind task ≡ ok tt
      → is_named task ≡ true
  unfolding validate_optional_reference validate_reference
  validate_optional_reference-is_named kind none h = refl
  validate_optional_reference-is_named kind (some task) h = ground arith

  -- What the services rely on of an environment.
  abbrev pub Usable : EnvironmentConfig → Type 0
  Usable e =
      (e.mechanism.kind ≡ jar_systemd)
      × (is_blank e.target ≡ false)
      × (paths.is_absolute e.staging_path ≡ true)
      × (paths.is_absolute e.install_path ≡ true)
      × (paths.is_absolute e.backup_path ≡ true)
      × (is_blank e.tasks.backup ≡ false)
      × (is_blank e.tasks.install ≡ false)
      × (is_blank e.tasks.restart ≡ false)
      × (is_blank e.tasks.health_check ≡ false)
      × (is_named e.tasks.precheck ≡ true)
      × (is_named e.tasks.rollback ≡ true)

  validate_environment-Usable :
      (id : String) (e : EnvironmentConfig) → validate_environment paths (id, e) ≡ ok tt → Usable e
  unfolding validate_environment validate_mechanism validate_reference validate_absolute_path
      validate_tasks
  validate_environment-Usable id e h = ground (
    arith,
    kind_eq→eq e.mechanism.kind jar_systemd,
    validate_optional_reference-is_named "precheck task" e.tasks.precheck,
    validate_optional_reference-is_named "rollback task" e.tasks.rollback,
  )

  found_environment-lookup :
      (a name : String) (found : Option EnvironmentConfig) (e : EnvironmentConfig)
      → found_environment a name found ≡ ok e
      → found ≡ some e
  unfolding found_environment
  found_environment-lookup a name none e h = cc
  found_environment-lookup a name (some x) e h = ground arith

  environment_of-lookup :
      (a name : String) (found : Option ApplicationConfig) (e : EnvironmentConfig)
      → environment_of a name (found_application a found) ≡ ok e
      → (x : ApplicationConfig) × (found ≡ some x) × (lookup name x.environments ≡ some e)
  unfolding environment_of found_application
  environment_of-lookup a name none e h = cc
  environment_of-lookup a name (some x) e h =
      (x, refl, found_environment-lookup a name (lookup name x.environments) e h)

  -- Every environment that a lookup in a validated configuration finds is of the implemented mechanism and
  -- has a target, absolute paths and names of its tasks, those of a configured precheck and rollback included.
  pub environment-Usable :
      (config : Config) (a name : String) (e : EnvironmentConfig)
      → validate paths config ≡ ok tt
      → environment config a name ≡ ok e
      → Usable e
  unfolding environment application
  environment-Usable config a name e valid found =
      let (x, in_config, in_application) =
        environment_of-lookup a name (lookup a config.applications) e found in
      let (j, checked) =
        each-lookup (validate_application paths) config.applications a x
          (validate-parts config valid).2 in_config in
      let (k, usable) =
        each-lookup (validate_environment paths) x.environments name e
          (application-validated (j, x) checked) in_application in
      validate_environment-Usable k e usable
