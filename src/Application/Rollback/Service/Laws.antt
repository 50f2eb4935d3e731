-- ===== src/Application/Rollback/Service/Laws.antt =====
-- What the store says of an explicit rollback, for any repository that keeps its contract.
use deploy_mcp.Prelude.{
  ℕ, String, ◌≡◌, refl, sym, ap, ◌∙◌, Bool, true, false, ◌⊎◌, inl, inr, Option, none, some, List,
  Result, ok, err, map_err, ok_or, if◌then◌else◌, arith,
}
use mathlib.Core.Path.{subst}
use deploy_mcp.Config.{Config}
use deploy_mcp.Error.{AppError, app_error, is_operation_timed_out, invalid_state_transition, plain}
use deploy_mcp.Domain.Release.{DeploymentId}
use deploy_mcp.Domain.Deployment.{Deployment}
use deploy_mcp.Domain.Rollback.{
  RollbackReference, RollbackOperation, RollbackOperationId, RollbackOperationState, RollbackError,
  operation_new, operation_id_new,
}
use deploy_mcp.Domain.Rollback
use deploy_mcp.Ports.{RepositoryError, RepositoryResult, DeploymentRepository}
use deploy_mcp.Ports.Rollback.{RollbackRepository}
use deploy_mcp.Ports.Rollback.Contract.{RollbackContract}
use deploy_mcp.Application.Lock.{Key, try_acquire, release}
use deploy_mcp.Application.Mechanism.{Timed, done, elapsed, DeploymentMechanismPort}
use deploy_mcp.Application.Exec.{
  App, Stop, error, panicked, pure, raise, lift, continue, ◌>>=◌, ◌>>◌,
}
use deploy_mcp.Application.Rollback.Failure.{RollbackFailure, RollbackOutcome, repository_error}
use deploy_mcp.Application.Rollback.Service.{
  World, reading, writing, loaded, load_operation, finish, settle, rollback_leased, operate, leased,
  with_lease, unknown, require_eligible, require_contract, is_eligible_state, rollback,
}
use deploy_mcp.Application.Rollback.Service.Remote.{operate-repository}

-- The stop is an error other than a timeout.
abbrev Untimed : Stop → Type 0
Untimed (error e) = is_operation_timed_out e.code ≡ false
Untimed (panicked m) = ⊥

repository_error-is_operation_timed_out :
    (e : RepositoryError) → is_operation_timed_out (repository_error e).code ≡ false
unfolding repository_error app_error is_operation_timed_out
repository_error-is_operation_timed_out e = ground arith

mapped-Untimed :
    {A : Type 0} (r : RepositoryResult A) (s : Stop)
    → map_err (λ e. error (repository_error e)) r ≡ err s
    → Untimed s
mapped-Untimed (ok a) s h = cc
mapped-Untimed (err e) (error x) h =
    let k = repository_error-is_operation_timed_out e in ground arith
mapped-Untimed (err e) (panicked m) h = cc

mapped-ok :
    {A : Type 0} (r : RepositoryResult A) {a : A}
    → map_err (λ e. error (repository_error e)) r ≡ ok a
    → r ≡ ok a
mapped-ok (ok b) h = ground arith
mapped-ok (err e) h = cc

-- The state that an operation ends in.
abbrev pub final : Option RollbackFailure → RollbackOperationState
final none = Rollback.succeeded
final (some f) = Rollback.failed

accepted-id :
    (uuid : String) (message : RollbackError → AppError) {id : RollbackOperationId}
    → map_err message (operation_id_new uuid) ≡ ok id
    → id ≡ uuid
unfolding operation_id_new
accepted-id uuid message h = ground arith

refused-id :
    (uuid : String) (message : String) {e : AppError}
    → map_err
        (λ (e : RollbackError). app_error invalid_state_transition (plain message))
        (operation_id_new uuid)
      ≡ err e
    → is_operation_timed_out e.code ≡ false
unfolding operation_id_new app_error is_operation_timed_out
refused-id uuid message h = ground arith

module _ {S R : Type 0} (rollbacks : RollbackRepository S) (c : RollbackContract rollbacks)
    (id : RollbackOperationId) where
  -- The outcome's operation, and the stored one, are in the state that the failure says.
  abbrev pub Agrees : RollbackOutcome → World S R → Type 0
  Agrees o w =
      (o.operation.state ≡ final o.failure) × (c.status w.repository id ≡ some (final o.failure))

  abbrev pub Started : World S R → Type 0
  Started w = c.status w.repository id ≡ some Rollback.started

  -- How a call of the service may end.
  abbrev pub Sound : Result Stop RollbackOutcome × World S R → Type 0
  Sound (ok o, w) = Agrees o w
  Sound (err (error e), w) = (is_operation_timed_out e.code ≡ false) ⊎ Started w
  Sound (err (panicked m), w) = Started w

  Sound-Untimed : (e : Stop) (w : World S R) → Untimed e → Sound (err e, w)
  Sound-Untimed (error e) w h = inl h
  Sound-Untimed (panicked m) w h = elim h [ ]

  Sound-Started : (e : Stop) (w : World S R) → Started w → Sound (err e, w)
  Sound-Started (error e) w h = inr h
  Sound-Started (panicked m) w h = h

  Sound-continue :
      {A : Type 0} (r : Result Stop A) (w : World S R) (f : A → App (World S R) RollbackOutcome)
      → ((a : A) → r ≡ ok a → Sound (f a w))
      → ((e : Stop) → r ≡ err e → Sound (err e, w))
      → Sound (continue r f w)
  Sound-continue (ok a) w f hok herr = hok a refl
  Sound-continue (err e) w f hok herr = herr e refl

  Sound-reading :
      {A : Type 0} (operation : S → RepositoryResult A) (w : World S R)
      (f : A → App (World S R) RollbackOutcome)
      → ((a : A) → operation w.repository ≡ ok a → Sound (f a w))
      → Sound ((reading operation >>= f) w)
  unfolding reading ◌>>=◌
  Sound-reading operation w f hok =
      Sound-continue _ w f (λ a h. hok a (mapped-ok (operation w.repository) h))
        (λ e h. Sound-Untimed e w (mapped-Untimed (operation w.repository) e h))

  Sound-writing :
      {A : Type 0} (operation : S → RepositoryResult A × S) (w : World S R)
      (f : A → App (World S R) RollbackOutcome)
      → ((a : A)
          → (operation w.repository).0 ≡ ok a
          → Sound (f a (record w { repository = (operation w.repository).1 })))
      → Sound ((writing operation >>= f) w)
  unfolding writing ◌>>=◌
  Sound-writing operation w f hok =
      let w' = record w { repository = (operation w.repository).1 } in
      Sound-continue _ w' f (λ a h. hok a (mapped-ok (operation w.repository).0 h))
        (λ e h. Sound-Untimed e w' (mapped-Untimed (operation w.repository).0 e h))

  Sound-lift :
      {A : Type 0} (r : Result AppError A) (w : World S R) (f : A → App (World S R) RollbackOutcome)
      → ((a : A) → r ≡ ok a → Sound (f a w))
      → ((e : AppError) → r ≡ err e → is_operation_timed_out e.code ≡ false)
      → Sound ((lift r >>= f) w)
  unfolding lift pure raise ◌>>=◌
  Sound-lift (ok a) w f hok herr = hok a refl
  Sound-lift (err e) w f hok herr = inl (herr e refl)

  Sound-found :
      (found : RepositoryResult (Option RollbackOperation)) (w : World S R)
      (f : RollbackOperation → App (World S R) RollbackOutcome)
      → ((o : RollbackOperation) → found ≡ ok (some o) → Sound (f o w))
      → let p =
          continue (map_err (λ e. error (repository_error e)) found) (loaded rollbacks id) w in
        Sound (continue p.0 f p.1)
  unfolding loaded raise pure app_error is_operation_timed_out
  Sound-found (err e) w f hok = inl (repository_error-is_operation_timed_out e)
  Sound-found (ok none) w f hok = inl refl
  Sound-found (ok (some o)) w f hok = hok o refl

  Sound-load_operation :
      (w : World S R) (f : RollbackOperation → App (World S R) RollbackOutcome)
      → ((o : RollbackOperation)
          → rollbacks.get_operation id w.repository ≡ ok (some o)
          → Sound (f o w))
      → Sound ((load_operation rollbacks id >>= f) w)
  unfolding load_operation reading ◌>>=◌
  Sound-load_operation w f hok = Sound-found (rollbacks.get_operation id w.repository) w f hok

  finish-Sound :
      (deployment_id : DeploymentId) (failure : Option RollbackFailure) (w : World S R)
      → Sound (finish rollbacks id deployment_id (final failure) failure w)
  unfolding finish pure
  finish-Sound deployment_id failure w = Sound-writing _ w _ (λ u finished.
      Sound-load_operation _ _ (λ o found.
        let (was, stored) = c.finish-ok id deployment_id (final failure) _ w.repository finished in
        let same : some o.state ≡ some (final failure) = sym (c.get-ok id o _ found) ∙ stored in
        (ground arith, stored)))

  -- Dropping a lease leaves the store as it is.
  released :
      (r : Result Stop RollbackOutcome) (w : World S R) (key : Key)
      → Sound (r, w)
      → Sound (r, record w { active = release key w.active })
  released (ok o) w key h = h
  released (err (error e)) w key h = h
  released (err (panicked m)) w key h = h

  settle-Sound :
      (timeout_ms : ℕ) (deployment_id : DeploymentId) (t : Timed (Option RollbackFailure))
      (w : World S R)
      → Started w
      → Sound (settle rollbacks timeout_ms id deployment_id t w)
  unfolding settle raise
  settle-Sound timeout_ms deployment_id (done (some failure)) w h =
      finish-Sound deployment_id (some failure) w
  settle-Sound timeout_ms deployment_id (done none) w h = finish-Sound deployment_id none w
  settle-Sound timeout_ms deployment_id elapsed w h = inr h

  module _ (port : DeploymentRepository S) (mechanism : DeploymentMechanismPort R)
      (config : Config) where
    operated-Sound :
        (reference : RollbackReference) (deployment_id : DeploymentId) (timeout_ms : ℕ)
        (w : World S R)
        → Started w
        → Sound (
            (operate mechanism config reference >>= settle rollbacks timeout_ms id deployment_id) w)
    unfolding ◌>>=◌
    operated-Sound reference deployment_id timeout_ms w h =
        let after = (operate mechanism config reference w).1 in
        let started : Started after =
          ap (λ s. c.status s id) (operate-repository mechanism config reference w) ∙ h in
        Sound-continue (operate mechanism config reference w).0 after _
          (λ t e. settle-Sound timeout_ms deployment_id t after started)
          (λ e h. Sound-Started e after started)

    -- What follows the identifier of the operation.
    Begun : Deployment → DeploymentId → World S R → RollbackOperationId → Type 0
    Begun d deployment_id w operation_id = Sound (
        (writing (
              rollbacks.begin_operation
                (operation_new operation_id d.id d.application d.environment))
            >>= λ reference.
                operate mechanism config reference
                >>= settle rollbacks config.runtime.explicit_rollback_timeout_ms operation_id
                    deployment_id)
          w)

    Begun-id :
        (d : Deployment) (deployment_id : DeploymentId) (w : World S R) → Begun d deployment_id w id
    unfolding Begun operation_new
    Begun-id d deployment_id w = Sound-writing _ w _ (λ reference h.
        operated-Sound reference deployment_id config.runtime.explicit_rollback_timeout_ms _
          (c.begin-ok (operation_new id d.id d.application d.environment) w.repository reference h))

    rollback_leased-Sound :
        (d : Deployment) (deployment_id : DeploymentId) (w : World S R)
        → Sound (rollback_leased rollbacks port mechanism config d deployment_id id w)
    unfolding rollback_leased Begun
    rollback_leased-Sound d deployment_id w =
        Sound-lift _ w _
          (λ operation_id accepted.
            subst (Begun d deployment_id w) (sym (accepted-id id _ accepted))
              (Begun-id d deployment_id w))
          (λ e refused. refused-id id _ refused)

    leased-Sound :
        (key : Key) (m : App (World S R) RollbackOutcome) (w : World S R) (held : Option (List Key))
        → ((w : World S R) → Sound (m w))
        → Sound (leased key m held w)
    unfolding leased raise app_error is_operation_timed_out
    leased-Sound key m w none h = inl refl
    leased-Sound key m w (some active) h =
        released (m (record w { active = active })).0 (m (record w { active = active })).1 key
          (h (record w { active = active }))

    require-Sound :
        (b : Bool) (e : AppError) (w : World S R) (k : App (World S R) RollbackOutcome)
        → is_operation_timed_out e.code ≡ false
        → Sound (k w)
        → Sound (((if b then pure tt else raise e) >> k) w)
    unfolding ◌>>=◌ pure raise
    require-Sound true e w k h next = next
    require-Sound false e w k h next = inl h

    refuse-Sound :
        (b : Bool) (e : AppError) (w : World S R) (k : App (World S R) RollbackOutcome)
        → is_operation_timed_out e.code ≡ false
        → Sound (k w)
        → Sound (((if b then raise e else pure tt) >> k) w)
    unfolding ◌>>=◌ pure raise
    refuse-Sound true e w k h next = inl h
    refuse-Sound false e w k h next = next

    mapped-error :
        {X Y : Type 0} (r : Result X Y) (x : AppError) {e : AppError}
        → map_err (λ (y : X). x) r ≡ err e
        → e ≡ x
    mapped-error (ok y) x h = cc
    mapped-error (err y) x h = ground arith

    missing-error :
        {Y : Type 0} (o : Option Y) (x : AppError) {e : AppError} → ok_or x o ≡ err e → e ≡ x
    missing-error none x h = ground arith
    missing-error (some y) x h = cc

    -- Where `rollback` returns an outcome, its operation as it was read back and as it is stored has succeeded
    -- exactly if there is no failure, and has failed otherwise. Where it ends in a timeout or a panic, the
    -- operation is stored as started. The repository is any that keeps its contract.
    pub rollback-Sound :
        (requested : String) (w : World S R)
        → Sound (rollback rollbacks port mechanism config requested id w)
    unfolding rollback with_lease require_eligible require_contract unknown app_error
        is_operation_timed_out
    rollback-Sound requested w =
        Sound-lift _ w _
          (λ deployment_id e1. Sound-reading _ w _ (λ found e2.
            Sound-lift _ w _
              (λ d e3. require-Sound (is_eligible_state d.state) _ w _ refl (
                Sound-lift _ w _
                  (λ configured e4. Sound-reading _ w _ (λ stored e5.
                    Sound-lift _ w _
                      (λ reference e6. refuse-Sound _ _ w _ refl (
                        leased-Sound (d.application, d.environment) _ w
                          (try_acquire (d.application, d.environment) w.active)
                          (rollback_leased-Sound d deployment_id)))
                      (λ e h. cc (missing-error stored _ h))))
                  (λ e h. cc (mapped-error _ _ h))))
              (λ e h. cc (missing-error found _ h))))
          (λ e h. cc (mapped-error _ _ h))
