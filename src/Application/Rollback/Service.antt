-- ===== src/Application/Rollback/Service.antt =====
-- src/application/rollback.rs: `RollbackService`. The timeout covers the whole remote part: a call of the
-- mechanism that is cut off ends it. A retry's delay that is cut off leaves the state that the next
-- call cut off at once leaves.
pub mod Remote
pub mod Laws
use deploy_mcp.Prelude.{
  ℕ, zero, suc, String, Bool, true, false, not, ◌||◌, Option, none, some, List, [], ◌∷◌, ok,
  map_err, ok_or, ◌==◌, if◌then◌else◌,
}
use deploy_mcp.Config.{Config, EnvironmentConfig, environment}
use deploy_mcp.Error.{
  unknown_deployment, rollback_unavailable, conflicting_deployment, operation_timed_out,
  persistence_failed, invalid_state_transition, AppError, app_error, format, text, number, in_state,
  plain,
}
use deploy_mcp.Domain.State.{DeploymentState}
use deploy_mcp.Domain.State
use deploy_mcp.Domain.Release.{DeploymentId, DeploymentError, id_new, kind_eq}
use deploy_mcp.Domain.Deployment.{Deployment}
use deploy_mcp.Domain.Rollback.{
  RollbackReference, RollbackOperation, RollbackOperationId, RollbackError, operation_new,
  operation_id_new,
}
use deploy_mcp.Domain.Rollback
use deploy_mcp.Ports.{RepositoryResult, DeploymentRepository}
use deploy_mcp.Ports.Rollback.{RollbackRepository}
use deploy_mcp.Application.Lock.{Key, try_acquire, release}
use deploy_mcp.Application.Mechanism.{
  Timed, done, elapsed, RollbackMechanismAction, restore, activate, verify, DeploymentMechanismPort,
}
use deploy_mcp.Application.Exec.{App, error, pure, raise, panic, lift, ◌>>=◌, ◌>>◌}
use deploy_mcp.Application.Rollback.Failure.{
  RollbackFailure, RollbackOutcome, persisted_message, repository_error, preflight_verdict,
  task_verdict,
}

pub record World (S R : Type 0) : Type 0 where
  pub repository : S
  pub remote : R
  pub active : List Key

-- `matches!(state, Succeeded | RollbackFailed)`.
unfoldable pub is_eligible_state : DeploymentState → Bool
is_eligible_state State.succeeded = true
is_eligible_state State.rollback_failed = true
is_eligible_state _ = false

unfoldable pub judged : {A B : Type 0} → (A → Option B) → Timed A → Timed (Option B)
judged verdict (done a) = done (verdict a)
judged verdict elapsed = elapsed

-- `if let Some(failure) = … { return Some(failure); }`, and the timeout's end of it all.
unfoldable pub unless_failed :
    {W B : Type 0} → Timed (Option B) → App W (Timed (Option B)) → App W (Timed (Option B))
unless_failed (done none) next = next
unless_failed (done (some failure)) next = pure (done (some failure))
unless_failed elapsed next = pure elapsed

-- What follows a verification with `left` attempts to go.
unfoldable pub after_verification :
    {W : Type 0}
    → ℕ
    → App W (Timed (Option RollbackFailure))
    → Timed (Option RollbackFailure)
    → App W (Timed (Option RollbackFailure))
after_verification left again (done none) = pure (done none)
after_verification left again (done (some failure)) =
    if left == 0 then pure (done (some failure)) else again
after_verification left again elapsed = pure elapsed

-- `for attempt in 1..=max_attempts`, by the attempts that are left.
unfoldable pub retry :
    {W : Type 0}
    → App W (Timed (Option RollbackFailure))
    → ℕ
    → App W (Timed (Option RollbackFailure))
unfolding after_verification
retry task zero = panic "validated verification policy always has at least one attempt"
retry task (suc left) = task >>= after_verification left (retry task left)

module _ {S R : Type 0} where
  unfoldable pub reading : {A : Type 0} → (S → RepositoryResult A) → App (World S R) A
  reading operation w = (map_err (λ e. error (repository_error e)) (operation w.repository), w)

  unfoldable pub writing : {A : Type 0} → (S → RepositoryResult A × S) → App (World S R) A
  writing operation w =
      let (r, s) = operation w.repository in
      (map_err (λ e. error (repository_error e)) r, record w { repository = s })

  unfoldable pub await : {A : Type 0} → (R → Timed A × R) → App (World S R) (Timed A)
  await operation w = let (r, s) = operation w.remote in (ok r, record w { remote = s })

  -- What runs while the lease of a key is held.
  leased : {A : Type 0} → Key → App (World S R) A → Option (List Key) → App (World S R) A
  leased key m none w =
      raise
        (app_error conflicting_deployment
          (format "mutation already active for {}/{}" (text key.0 ∷ text key.1 ∷ [])))
        w
  leased key m (some active) w =
      let (r, w') = m (record w { active = active }) in
      (r, record w' { active = release key w'.active })

  unfoldable pub with_lease : {A : Type 0} → Key → App (World S R) A → App (World S R) A
  unfolding leased
  with_lease key m w = leased key m (try_acquire key w.active) w

  module _ (mechanism : DeploymentMechanismPort R) (config : Config) where
    unfoldable pub preflight : RollbackReference → App (World S R) (Timed (Option RollbackFailure))
    preflight reference = do
      result ← await (mechanism.preflight_rollback reference)
      pure (judged preflight_verdict result)

    unfoldable pub run_task :
        RollbackReference
        → RollbackMechanismAction
        → String
        → App (World S R) (Timed (Option RollbackFailure))
    run_task reference mechanism_action action = do
      result ← await (mechanism.execute_rollback reference mechanism_action)
      pure (judged (task_verdict action) result)

    unfoldable pub run_verification_with_retry :
        RollbackReference → App (World S R) (Timed (Option RollbackFailure))
    run_verification_with_retry reference =
        retry (run_task reference verify "rollback verification task failed")
          config.runtime.verification_max_attempts

    -- The block under the timeout.
    unfoldable pub operate : RollbackReference → App (World S R) (Timed (Option RollbackFailure))
    operate reference = do
      checked ← preflight reference
      unless_failed checked (do
        restored ← run_task reference restore "rollback restore task failed"
        unless_failed restored (do
          activated ← run_task reference activate "rollback restart task failed"
          unless_failed activated (run_verification_with_retry reference)))

  module _ (rollbacks : RollbackRepository S) where
    loaded : RollbackOperationId → Option RollbackOperation → App (World S R) RollbackOperation
    loaded id none =
        raise (
          app_error persistence_failed (format "rollback operation disappeared: {}" (text id ∷ [])))
    loaded id (some operation) = pure operation

    unfoldable pub load_operation : RollbackOperationId → App (World S R) RollbackOperation
    unfolding loaded
    load_operation id = reading (rollbacks.get_operation id) >>= loaded id

    -- The operation ends in a state, and is read back.
    unfoldable pub finish :
        RollbackOperationId
        → DeploymentId
        → Rollback.RollbackOperationState
        → Option RollbackFailure
        → App (World S R) RollbackOutcome
    finish operation_id deployment_id state failure = do
      writing (
          rollbacks.finish_operation operation_id deployment_id state
            (elim failure [ none ↦ none | some f ↦ some (persisted_message f) ]))
      operation ← load_operation operation_id
      pure (record { operation = operation; failure = failure })

    -- The `match operation_result`.
    unfoldable pub settle :
        ℕ
        → RollbackOperationId
        → DeploymentId
        → Timed (Option RollbackFailure)
        → App (World S R) RollbackOutcome
    settle timeout_ms operation_id deployment_id (done (some failure)) =
        finish operation_id deployment_id Rollback.failed (some failure)
    settle timeout_ms operation_id deployment_id (done none) =
        finish operation_id deployment_id Rollback.succeeded none
    settle timeout_ms operation_id deployment_id elapsed = raise (
        app_error operation_timed_out (
          format
            "explicit rollback operation {} exceeded {timeout_ms} ms; durable operation remains STARTED and further mutation is blocked until recovery/reconciliation"
            (text operation_id ∷ number timeout_ms ∷ [])))

    module _ (port : DeploymentRepository S) (mechanism : DeploymentMechanismPort R)
        (config : Config) where
      -- What `rollback` does while it holds the lease.
      unfoldable pub rollback_leased :
          Deployment → DeploymentId → String → App (World S R) RollbackOutcome
      rollback_leased d deployment_id uuid = do
        operation_id ← lift (
            map_err
              (λ (e : RollbackError).
                app_error invalid_state_transition
                  (plain "failed to create rollback operation id: {error}"))
              (operation_id_new uuid))
        reference ← writing (
            rollbacks.begin_operation (operation_new operation_id d.id d.application d.environment))
        result ← operate mechanism config reference
        settle config.runtime.explicit_rollback_timeout_ms operation_id deployment_id result

      unknown : String → AppError
      unknown deployment_id =
          app_error unknown_deployment (format "unknown deployment: {}" (text deployment_id ∷ []))

      require_eligible : Deployment → App (World S R) (Unit {0})
      require_eligible d =
          if is_eligible_state d.state
          then pure tt
          else raise (
              app_error rollback_unavailable (
                format "deployment {} in state {:?} is not eligible for explicit rollback"
                  (text d.id ∷ in_state d.state ∷ [])))

      require_contract :
          Deployment → EnvironmentConfig → RollbackReference → App (World S R) (Unit {0})
      require_contract d configured reference =
          if not (kind_eq d.mechanism_kind mechanism.kind)
            || not (mechanism.rollback_contract_matches configured reference)
          then raise (
              app_error rollback_unavailable (
                plain
                  "deployment mechanism contract changed since the rollback reference was created"))
          else pure tt

      -- `rollback`, with the fresh uuid of its operation.
      unfoldable pub rollback : String → String → App (World S R) RollbackOutcome
      unfolding unknown require_eligible require_contract
      rollback requested uuid = do
        id ←
            lift (
              map_err (λ (e : DeploymentError). unknown requested)
                (id_new "DeploymentId" requested))
        found ← reading (port.get id)
        d ← lift (ok_or (unknown requested) found)
        require_eligible d
        configured ← lift (
            map_err
              (λ (e : AppError).
                app_error rollback_unavailable
                  (plain "deployment environment is no longer configured"))
              (environment config d.application d.environment))
        stored ← reading (rollbacks.get_reference id)
        reference ← lift (
            ok_or
              (app_error rollback_unavailable
                (format "no durable rollback reference exists for {}" (text d.id ∷ [])))
              stored)
        require_contract d configured reference
        with_lease (d.application, d.environment) (rollback_leased d id uuid)
