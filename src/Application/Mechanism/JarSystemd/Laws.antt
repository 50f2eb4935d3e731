-- ===== src/Application/Mechanism/JarSystemd/Laws.antt =====
-- References that are built match the contract that they are built from.
use deploy_mcp.Prelude.{
  String, ◌≡◌, refl, sym, ap, ◌∙◌, true, Result, ok, err, eq_iff, eq_refl, arith,
}
use deploy_mcp.Config.{EnvironmentConfig}
use deploy_mcp.Domain.Release.{jar_systemd, kind_eq}
use deploy_mcp.Domain.Deployment.{Deployment}
use deploy_mcp.Domain.Rollback.{
  Sha256, contract_fields, hash_fields, RollbackError, JarSystemdRollbackSnapshot,
  RollbackReference, fingerprint_jar_systemd, new_with_snapshot, rehydrate_with_snapshot,
}
use deploy_mcp.Domain.Rollback.Fingerprint.{IsUtf8, AllFit, hash_fields-injective}
use deploy_mcp.Application.Mechanism.JarSystemd.{
  rollback_snapshot, referenced, build_rollback_reference, same_contract, rollback_contract_matches,
}

-- The fields of a reference that `new_with_snapshot` accepts.
referenced-same :
    (sha256 : Sha256) (d : Deployment) (environment : EnvironmentConfig)
    (r : Result RollbackError JarSystemdRollbackSnapshot) (reference : RollbackReference)
    → referenced sha256 d environment r ≡ ok reference
    → (kind_eq reference.mechanism_kind jar_systemd ≡ true)
      × (same_contract sha256 environment reference r ≡ true)
      × (reference.deployment_id ≡ d.id)
unfolding referenced new_with_snapshot rehydrate_with_snapshot same_contract kind_eq
referenced-same sha256 d environment (err e) reference h = cc
referenced-same sha256 d environment (ok snapshot) reference h = (
  ground arith,
  ground (
    arith,
    eq_refl environment.target,
    eq_refl (fingerprint_jar_systemd sha256 environment.target snapshot),
  ),
  ground arith,
)

same_contract-other :
    (sha256 : Sha256) (environment other : EnvironmentConfig) (reference : RollbackReference)
    (r : Result RollbackError JarSystemdRollbackSnapshot)
    → other.target ≡ environment.target
    → same_contract sha256 environment reference r ≡ true
    → same_contract sha256 other reference r ≡ true
unfolding same_contract
same_contract-other sha256 environment other reference (err e) t h = cc
same_contract-other sha256 environment other reference (ok snapshot) t h = cc

-- A rollback reference that is built for a deployment from an environment of the JAR mechanism is the
-- deployment's, and matches the contract of that environment, and of every other one with the same
-- mechanism, target and rollback snapshot.
pub rollback_contract_matches-build_rollback_reference :
    (sha256 : Sha256) (d : Deployment) (environment other : EnvironmentConfig)
    (reference : RollbackReference)
    → build_rollback_reference sha256 d environment ≡ ok reference
    → kind_eq other.mechanism.kind jar_systemd ≡ true
    → other.target ≡ environment.target
    → rollback_snapshot other ≡ rollback_snapshot environment
    → (reference.deployment_id ≡ d.id) × (rollback_contract_matches sha256 other reference ≡ true)
unfolding build_rollback_reference rollback_contract_matches
rollback_contract_matches-build_rollback_reference sha256 d environment other reference h kind
      target snapshot =
    let (k, same, own) =
      referenced-same sha256 d environment (rollback_snapshot environment) reference h in
    (
      own,
      ground (
        arith,
        same_contract-other sha256 environment other reference (rollback_snapshot other) target
            (cc (snapshot, same)),
      ),
    )

-- What a reference that was built holds, and what a contract that matches it says.
referenced-fingerprint :
    (sha256 : Sha256) (d : Deployment) (environment : EnvironmentConfig)
    (s : JarSystemdRollbackSnapshot) (reference : RollbackReference)
    → referenced sha256 d environment (ok s) ≡ ok reference
    → (reference.target ≡ environment.target)
      × (reference.contract_fingerprint ≡ fingerprint_jar_systemd sha256 environment.target s)
unfolding referenced new_with_snapshot rehydrate_with_snapshot
referenced-fingerprint sha256 d environment s reference h = (ground arith, ground arith)

same_contract-fingerprint :
    (sha256 : Sha256) (other : EnvironmentConfig) (t : JarSystemdRollbackSnapshot)
    (reference : RollbackReference)
    → same_contract sha256 other reference (ok t) ≡ true
    → (other.target ≡ reference.target)
      × (fingerprint_jar_systemd sha256 other.target t ≡ reference.contract_fingerprint)
unfolding same_contract
same_contract-fingerprint sha256 other t reference h = (
  ground (arith, eq_iff other.target reference.target),
  ground (
    arith,
    eq_iff (fingerprint_jar_systemd sha256 other.target t) reference.contract_fingerprint,
  ),
)

fields-snapshot :
    (sha256 : Sha256) (a b : String) (s t : JarSystemdRollbackSnapshot)
    → contract_fields sha256 a s ≡ contract_fields sha256 b t
    → s ≡ t
fields-snapshot sha256 a b s t h = ground arith

-- Where two contracts do not collide under the hash, an environment matches a reference that was built from
-- another configuration only if its target and its whole rollback snapshot are the same: both paths and
-- the three tasks.
pub rollback_contract_matches_unchanged :
    (sha256 : Sha256) (utf8 : IsUtf8 sha256) (d : Deployment)
    (environment other : EnvironmentConfig) (s t : JarSystemdRollbackSnapshot)
    (reference : RollbackReference)
    → rollback_snapshot environment ≡ ok s
    → rollback_snapshot other ≡ ok t
    → AllFit sha256 utf8 (contract_fields sha256 environment.target s)
    → AllFit sha256 utf8 (contract_fields sha256 other.target t)
    → (fingerprint_jar_systemd sha256 other.target t
          ≡ fingerprint_jar_systemd sha256 environment.target s
        → hash_fields sha256 (contract_fields sha256 other.target t)
          ≡ hash_fields sha256 (contract_fields sha256 environment.target s))
    → build_rollback_reference sha256 d environment ≡ ok reference
    → rollback_contract_matches sha256 other reference ≡ true
    → (other.target ≡ environment.target) × (t ≡ s)
unfolding build_rollback_reference rollback_contract_matches
rollback_contract_matches_unchanged sha256 utf8 d environment other s t reference es et fs ft
      distinct built h =
    let (target, fingerprint) =
      referenced-fingerprint sha256 d environment s reference
        (ap (referenced sha256 d environment) (sym es) ∙ built) in
    let (same_target, same_fingerprint) =
      same_contract-fingerprint sha256 other t reference
        (ap (same_contract sha256 other reference) (sym et) ∙ ground arith) in
    let fields =
      hash_fields-injective sha256 utf8 (contract_fields sha256 other.target t)
        (contract_fields sha256 environment.target s) refl ft fs
        (distinct (same_fingerprint ∙ fingerprint)) in
    (same_target ∙ target, fields-snapshot sha256 other.target environment.target t s fields)
