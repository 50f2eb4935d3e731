-- ===== src/Application/Rollback/Service/Remote.antt =====
-- The remote part of a rollback leaves the store alone.
use deploy_mcp.Prelude.{
  ℕ, zero, suc, ◌≡◌, refl, ◌∙◌, Bool, true, false, Option, none, some, Result, ok, err, ◌==◌,
  if◌then◌else◌,
}
use deploy_mcp.Config.{Config}
use deploy_mcp.Domain.Rollback.{RollbackReference}
use deploy_mcp.Application.Mechanism.{
  Timed, done, elapsed, RollbackMechanismAction, DeploymentMechanismPort,
}
use deploy_mcp.Application.Exec.{App, Stop, pure, panic, continue, ◌>>=◌}
use deploy_mcp.Application.Rollback.Failure.{RollbackFailure, preflight_verdict, task_verdict}
use deploy_mcp.Application.Rollback.Service.{
  World, await, judged, unless_failed, after_verification, retry, preflight, run_task,
  run_verification_with_retry, operate,
}

module _ {S R : Type 0} where
  -- The call leaves the store as it is, however it ends.
  pub record Frozen {A : Type 0} (m : App (World S R) A) : Type 0 where
    pub same : (w : World S R) → (m w).1.repository ≡ w.repository

  Frozen-continue :
      {A B : Type 0} (r : Result Stop A) (w : World S R) (f : A → App (World S R) B)
      → ((a : A) → Frozen (f a))
      → (continue r f w).1.repository ≡ w.repository
  Frozen-continue (ok a) w f h = (h a).same w
  Frozen-continue (err e) w f h = refl

  Frozen-bind :
      {A B : Type 0} (m : App (World S R) A) (f : A → App (World S R) B)
      → Frozen m
      → ((a : A) → Frozen (f a))
      → Frozen (m >>= f)
  unfolding ◌>>=◌
  Frozen-bind m f hm hf = record { same = λ w. Frozen-continue (m w).0 (m w).1 f hf ∙ hm.same w }

  Frozen-pure : {A : Type 0} (a : A) → Frozen (pure a)
  unfolding pure
  Frozen-pure a = record { same = λ w. refl }

  Frozen-await : {A : Type 0} (operation : R → Timed A × R) → Frozen (await operation)
  unfolding await
  Frozen-await operation = record { same = λ w. refl }

  Frozen-unless_failed :
      {B : Type 0} (t : Timed (Option B)) (next : App (World S R) (Timed (Option B)))
      → Frozen next
      → Frozen (unless_failed t next)
  unfolding unless_failed
  Frozen-unless_failed (done none) next h = h
  Frozen-unless_failed (done (some f)) next h = Frozen-pure (done (some f))
  Frozen-unless_failed elapsed next h = Frozen-pure elapsed

  Frozen-if :
      {A : Type 0} (b : Bool) (m n : App (World S R) A)
      → Frozen m
      → Frozen n
      → Frozen (if b then m else n)
  Frozen-if true m n hm hn = hm
  Frozen-if false m n hm hn = hn

  Frozen-after_verification :
      (left : ℕ) (again : App (World S R) (Timed (Option RollbackFailure)))
      (t : Timed (Option RollbackFailure))
      → Frozen again
      → Frozen (after_verification left again t)
  unfolding after_verification
  Frozen-after_verification left again (done none) h = Frozen-pure (done none)
  Frozen-after_verification left again (done (some f)) h =
      Frozen-if (left == 0) (pure (done (some f))) again (Frozen-pure (done (some f))) h
  Frozen-after_verification left again elapsed h = Frozen-pure elapsed

  Frozen-retry :
      (task : App (World S R) (Timed (Option RollbackFailure))) (left : ℕ)
      → Frozen task
      → Frozen (retry task left)
  unfolding retry panic
  Frozen-retry task zero h = record { same = λ w. refl }
  Frozen-retry task (suc left) h =
      Frozen-bind task _ h
        (λ t. Frozen-after_verification left (retry task left) t (Frozen-retry task left h))

  module _ (mechanism : DeploymentMechanismPort R) (config : Config)
      (reference : RollbackReference) where
    Frozen-run_task :
        (action : RollbackMechanismAction) (message : _)
        → Frozen (run_task mechanism config reference action message)
    unfolding run_task
    Frozen-run_task action message =
        Frozen-bind _ _ (Frozen-await (mechanism.execute_rollback reference action))
          (λ t. Frozen-pure (judged (task_verdict message) t))

    Frozen-operate : Frozen (operate mechanism config reference)
    unfolding operate preflight run_verification_with_retry
    Frozen-operate =
        Frozen-bind _ _
          (Frozen-bind _ _ (Frozen-await (mechanism.preflight_rollback reference))
            (λ t. Frozen-pure (judged preflight_verdict t)))
          λ checked. Frozen-unless_failed checked _ (
            Frozen-bind _ _ (Frozen-run_task _ _) λ restored. Frozen-unless_failed restored _ (
              Frozen-bind _ _ (Frozen-run_task _ _) λ activated.
                Frozen-unless_failed activated _
                  (Frozen-retry _ config.runtime.verification_max_attempts (Frozen-run_task _ _))))

    pub operate-repository :
        (w : World S R) → (operate mechanism config reference w).1.repository ≡ w.repository
    operate-repository w = Frozen-operate.same w
