-- ===== src/Scenarios/Mechanism.antt =====
-- The theorems on the JAR mechanism and on validated configurations at concrete inputs.
use deploy_mcp.Prelude.{◌≤◌, ◌≡◌, refl, true, false, none, [], ◌∷◌, ok, length, inr}
use deploy_mcp.Text.{is_blank, is_whitespace, any_char}
use deploy_mcp.Config.{environment, application}
use deploy_mcp.Config.Validate.{
  PathRules, validate, max_roots, validate_reference, validate_process_value, validate_arguments,
  validate_timeout, validate_verification_attempts, validate_verification_retry_delay,
  validate_rollback_reference_retention_days, validate_rollback_reference_cleanup_batch_size,
  validate_environment, validate_absolute_path, validate_optional_reference,
}
use deploy_mcp.Config.Validate.Laws.{Bounded, Usable, validate-Bounded, environment-Usable}
use deploy_mcp.Domain.Rollback.{
  Sha256, RollbackReference, jar_systemd_snapshot, active, snapshot_new, non_empty,
  new_with_snapshot, fingerprint_jar_systemd,
}
use deploy_mcp.Domain.Release.{jar_systemd, kind_eq}
use deploy_mcp.Application.Mechanism.{RemotePreflightReport, RemoteExecutionPort, done}
use deploy_mcp.Application.Mechanism.Preflight.{
  contains, preflight_remote_capabilities, judged, difference, required_tasks, insert, from_list,
}
use deploy_mcp.Application.Mechanism.Preflight.Laws.{Reached, preflight_complete}
use deploy_mcp.Application.Mechanism.JarSystemd.{
  build_rollback_reference, rollback_snapshot, rollback_contract_matches,
}
use deploy_mcp.Application.Mechanism.JarSystemd.Laws.{
  rollback_contract_matches-build_rollback_reference,
}
use deploy_mcp.Scenarios.{config, staging, first, finished, checksum}

-- Absolute paths alone, each with a parent and without a parent directory in it.
abbrev paths : PathRules
paths = record { is_absolute = λ p. true; has_parent = λ p. true; has_parent_dir = λ p. false }

valid : validate paths config ≡ ok tt
unfolding validate validate_reference is_blank is_whitespace validate_process_value any_char
    validate_arguments validate_timeout validate_verification_attempts
    validate_verification_retry_delay validate_rollback_reference_retention_days
    validate_rollback_reference_cleanup_batch_size validate_environment kind_eq
    validate_absolute_path validate_optional_reference
valid = refl

validate-Bounded_example :
    Bounded config.runtime × (length config.local_artifacts.allowed_roots ≤ max_roots)
validate-Bounded_example = validate-Bounded paths config valid

environment-Usable_example : Usable paths staging
unfolding environment application
environment-Usable_example = environment-Usable paths config "shop" "staging" staging valid refl

-- A host that offers the tasks of the environment.
abbrev host : RemoteExecutionPort (Unit {0})
host = record {
  check_target = λ target r. (done (ok (record { reachable = true; remote_identity = none })), r);
  list_tasks =
      λ target r. (done (ok ("backup" ∷ "health" ∷ "install" ∷ "restart" ∷ "rollback" ∷ [])), r);
  upload_file = λ target local_path remote_path overwrite r.
      (done (ok (record { bytes_transferred = 3 })), r);
  run_task = λ target task parameters r. (done (ok finished.result), r);
}

abbrev complete_report : RemotePreflightReport
complete_report = record {
  target = "host-1";
  remote_identity = none;
  available_tasks = "backup" ∷ "health" ∷ "install" ∷ "restart" ∷ "rollback" ∷ [];
}

preflight_complete_example :
    Reached host staging complete_report tt tt
    × ("host-1" ≡ staging.target)
    × (contains "rollback" ("backup" ∷ "health" ∷ "install" ∷ "restart" ∷ "rollback" ∷ []) ≡ true)
unfolding preflight_remote_capabilities judged difference required_tasks insert from_list
preflight_complete_example =
    preflight_complete host staging complete_report tt tt "rollback" refl
      (inr (inr (inr (inr (inr refl)))))

abbrev sha256 : Sha256
sha256 = record { hex_digest = λ bytes. checksum; utf8 = λ s. [] }

abbrev reference : RollbackReference
reference = record {
  deployment_id = "d-1";
  application = "shop";
  environment = "staging";
  mechanism_kind = jar_systemd;
  target = "host-1";
  contract_fingerprint = checksum;
  mechanism_snapshot = jar_systemd_snapshot (record {
    backup_path = "/srv/backup/app.jar";
    install_path = "/srv/app/app.jar";
    rollback_task = "rollback";
    restart_task = "restart";
    health_check_task = "health";
  });
  state = active;
}

rollback_contract_matches-build_rollback_reference_example :
    (reference.deployment_id ≡ first.id)
    × (rollback_contract_matches sha256
          (record staging { staging_path = "/srv/other.jar" })
          reference
        ≡ true)
unfolding build_rollback_reference rollback_snapshot snapshot_new non_empty is_blank is_whitespace
    new_with_snapshot fingerprint_jar_systemd kind_eq
rollback_contract_matches-build_rollback_reference_example =
    rollback_contract_matches-build_rollback_reference sha256 first staging
      (record staging { staging_path = "/srv/other.jar" }) reference refl refl refl refl
