-- ===== src/Application/Deploy/Run/Recovering.antt =====
-- The automatic rollback, and how a failure ends the run.
use deploy_mcp.Prelude.{
  arith, String, List, ◌∷◌, ◌≡◌, refl, sym, ap, ◌∙◌, true, false, not, ◌&&◌, Option, none, some,
}
use deploy_mcp.Config.{Config, EnvironmentConfig}
use deploy_mcp.Error.{is_operation_timed_out}
use deploy_mcp.Domain.State.{
  DeploymentState, failed, rolling_back, rolled_back, rollback_failed, has_live_mutation_started,
  is_terminal,
}
use deploy_mcp.Domain.Release.{DeploymentId}
use deploy_mcp.Domain.Plan.{DeploymentPlan, DeploymentStep, requires_rollback_after_failure}
use deploy_mcp.Domain.Plan.Boundary.{state_of_step}
use deploy_mcp.Domain.Deployment.{Deployment}
use deploy_mcp.Ports.{DeploymentRepository}
use deploy_mcp.Ports.Contract.{Contract}
use deploy_mcp.Application.Mechanism.{DeploymentMechanismPort, RollbackMechanismAction}
use deploy_mcp.Application.Exec.{
  App, pure, ◌>>=◌, Triple, Triple-pure, Triple-if, Triple-bind, Triple-map,
}
use deploy_mcp.Application.Deploy.Failure.{DeploymentFailure, DeploymentOutcome}
use deploy_mcp.Application.Deploy.Attempt.{
  World, Call, MechanismCall, execute_current_rollback, execute_current_rollback_task,
}
use deploy_mcp.Application.Deploy.Attempt.Rules.{Triple-attempt_step, Triple-retry_verification}
use deploy_mcp.Application.Deploy.Attempt.Trace.{step_of, rollback_calls}
use deploy_mcp.Application.Deploy.Failure.Laws.{task_verdict-Of, task_verdict-none}
use deploy_mcp.Application.Deploy.Run.Ending.{Ending, is_unknown}
use mathlib.Core.Path.{subst}
use deploy_mcp.Application.Deploy.Run.{
  outcome, on_failure, execute_current_rollback_verification, rollback_restart, rollback_restore,
  execute_rollback, finish_rollback, roll_back, record_failure, finish_primary_failure,
}
use deploy_mcp.Application.Deploy.Run.Phase

module _ {S R : Type 0} (port : DeploymentRepository S) (c : Contract port) (id : DeploymentId)
    (mechanism : DeploymentMechanismPort R) (environment : EnvironmentConfig) (path : String)
    (before : List (Call S R)) (plan : DeploymentPlan) where
  abbrev Since : List MechanismCall → List (Call S R) → Type 0
  Since = Phase.Since port c id mechanism environment path before plan

  abbrev Some : List (Call S R) → Type 0
  Some = Phase.Some port c id mechanism environment path before plan

  abbrev Halts : World S R → Type 0
  Halts = Phase.Halts port c id mechanism environment path before plan

  abbrev Holds : DeploymentState → (List (Call S R) → Type 0) → World S R → Type 0
  Holds = Phase.Holds port c id mechanism environment path before plan

  abbrev Settles :
      DeploymentState → (List (Call S R) → Type 0) → App (World S R) DeploymentOutcome → Type 0
  Settles = Phase.Settles port c id mechanism environment path before plan

  abbrev Judges :
      List MechanismCall
      → MechanismCall
      → DeploymentStep
      → Option DeploymentFailure
      → List (Call S R)
      → Type 0
  Judges = Phase.Judges port c id mechanism environment path before plan

  abbrev Attempts :
      DeploymentState
      → List MechanismCall
      → MechanismCall
      → DeploymentStep
      → App (World S R) (Option DeploymentFailure)
      → Type 0
  Attempts = Phase.Attempts port c id mechanism environment path before plan

  module _ (config : Config) where
    rollback-Attempts :
        (made : List MechanismCall) (j : DeploymentId) (step : DeploymentStep)
        (action : RollbackMechanismAction) (message : String)
        → j ≡ id
        → step_of (execute_current_rollback action) ≡ some step
        → Attempts rolling_back made
            (execute_current_rollback action)
            step
            (execute_current_rollback_task port mechanism config j step environment action message)
    unfolding execute_current_rollback_task is_terminal
    rollback-Attempts made j step action message e in_step =
        Triple-attempt_step port c id mechanism environment path before rolling_back refl made step
          (execute_current_rollback action) _ _
          (λ r.
            task_verdict-none _ step _ message
              (mechanism.execute_current_rollback environment action r).0)
          (λ r.
            task_verdict-Of _ step _ message
              (mechanism.execute_current_rollback environment action r).0)
          j e in_step refl

    -- The rollback worked with all its calls, or it has failed.
    abbrev Rolled : List MechanismCall → Option DeploymentFailure → List (Call S R) → Type 0
    Rolled made none calls =
        (mechanism.rollback_is_configured environment ≡ true) × Since (rollback_calls made) calls
    Rolled made (some g) calls = Some calls

    -- A part of the rollback of a run that had made these calls.
    abbrev Rolls :
        List MechanismCall
        → List MechanismCall
        → App (World S R) (Option DeploymentFailure)
        → Type 0
    Rolls made now m =
        Triple (Holds rolling_back (Since now)) m (λ f. Holds rolling_back (Rolled made f)) Halts

    Rolled-judged :
        (made now : List MechanismCall) (call : MechanismCall) (step : DeploymentStep)
        (rest : App (World S R) (Option DeploymentFailure)) (failure : Option DeploymentFailure)
        → Rolls made (call ∷ now) rest
        → Triple
            (Holds rolling_back (Judges now call step failure))
            (on_failure failure (λ f. pure (some f)) rest)
            (λ f. Holds rolling_back (Rolled made f))
            Halts
    unfolding on_failure
    Rolled-judged made now call step rest none h = h
    Rolled-judged made now call step rest (some f) h =
        Triple-pure (some f) (λ w p. (p.0, (now, p.1.0)))

    -- A rollback task, and what follows it.
    rollback_step :
        (made now : List MechanismCall) (call : MechanismCall) (step : DeploymentStep)
        (attempt rest : App (World S R) (Option DeploymentFailure))
        → Attempts rolling_back now call step attempt
        → Rolls made (call ∷ now) rest
        → Rolls made now (attempt >>= λ failure. on_failure failure (λ f. pure (some f)) rest)
    rollback_step made now call step attempt rest h k =
        Triple-bind _ _ h λ failure. Rolled-judged made now call step rest failure k

    verified-Rolled :
        (made now : List MechanismCall) (step : DeploymentStep) (f : Option DeploymentFailure)
        (calls : List (Call S R))
        → mechanism.rollback_is_configured environment ≡ true
        → execute_current_rollback RollbackMechanismAction.verify ∷ now ≡ rollback_calls made
        → Judges now (execute_current_rollback RollbackMechanismAction.verify) step f calls
        → Rolled made f calls
    verified-Rolled made now step none calls on e h = (on, subst (λ m. Since m calls) e h)
    verified-Rolled made now step (some g) calls on e h = (now, h.0)

    rollback_verification-Rolls :
        (made : List MechanismCall) (j : DeploymentId)
        → j ≡ id
        → mechanism.rollback_is_configured environment ≡ true
        → Rolls made
            (execute_current_rollback RollbackMechanismAction.activate
              ∷ execute_current_rollback RollbackMechanismAction.restore
              ∷ made)
            (execute_current_rollback_verification port mechanism config j environment)
    unfolding execute_current_rollback_verification is_terminal
    rollback_verification-Rolls made j e on =
        let now =
          execute_current_rollback RollbackMechanismAction.activate
          ∷ execute_current_rollback RollbackMechanismAction.restore
          ∷ made in
        Triple-map
          (Triple-retry_verification port c id mechanism environment path before rolling_back refl
            now (execute_current_rollback RollbackMechanismAction.verify) DeploymentStep.verify _
            config.runtime.verification_max_attempts
            (rollback-Attempts now j DeploymentStep.verify RollbackMechanismAction.verify _ e refl))
          (λ f w h. (h.0, verified-Rolled made now DeploymentStep.verify f w.calls on refl h.1))

    execute_rollback-Rolls :
        (made : List MechanismCall) (j : DeploymentId)
        → j ≡ id
        → Rolls made made (execute_rollback port mechanism config j environment)
    unfolding execute_rollback rollback_restore rollback_restart
    execute_rollback-Rolls made j e =
        Triple-if (mechanism.rollback_is_configured environment) _ _
          (λ on.
            rollback_step made made _ _ _ _
              (rollback-Attempts made j DeploymentStep.install RollbackMechanismAction.restore _ e
                refl)
              (rollback_step made _ _ _ _ _
                (rollback-Attempts _ j DeploymentStep.restart RollbackMechanismAction.activate _ e
                  refl)
                (rollback_verification-Rolls made j e on)))
          (λ off. Triple-pure _ (λ w p. (p.0, (made, p.1))))

    Rolled-Some :
        (made : List MechanismCall) (f : Option DeploymentFailure) (calls : List (Call S R))
        → Rolled made f calls
        → Some calls
    Rolled-Some made none calls h = (rollback_calls made, h.1)
    Rolled-Some made (some g) calls h = h

    finish_rollback-Settles :
        (made : List MechanismCall) (d : Deployment) (failure : DeploymentFailure)
        (rollback_failure : Option DeploymentFailure)
        → d.id ≡ id
        → d.state ≡ rolling_back
        → is_unknown failure ≡ false
        → requires_rollback_after_failure plan failure.step ≡ true
        → Settles rolling_back
            (Rolled made rollback_failure)
            (finish_rollback port mechanism config d failure rollback_failure)
    unfolding finish_rollback is_terminal
    finish_rollback-Settles made d failure none i t known rolls =
        (Phase.Settles-end port c id mechanism environment path before plan) rolling_back
          rolled_back (Rolled made none) d (some failure) none (Rolled-Some made none) refl i t
          (λ now calls u h. Ending.restored failure made u refl refl known rolls h.0 h.1)
    finish_rollback-Settles made d failure (some g) i t known rolls =
        Triple-if (is_operation_timed_out g.code) _ _
          (λ cut. Triple-pure (outcome d (some failure) (some g) false) (λ w h. (
            i,
            h.0 ∙ ap some (sym t),
            Ending.rollback_cut_off failure g t refl refl known rolls cut h.1,
            refl,
          )))
          (λ whole.
            (Phase.Settles-end port c id mechanism environment path before plan) rolling_back
              rollback_failed (Rolled made (some g)) d (some failure) (some g)
              (Rolled-Some made (some g)) refl i t
              (λ now calls u h. Ending.not_restored failure g u refl refl known rolls whole h))

    roll_back-Settles :
        (s : DeploymentState) (made : List MechanismCall) (d : Deployment)
        (failure : DeploymentFailure)
        → is_terminal s ≡ false
        → d.id ≡ id
        → d.state ≡ s
        → is_unknown failure ≡ false
        → requires_rollback_after_failure plan failure.step ≡ true
        → Settles s (Since made) (roll_back port mechanism config d environment failure)
    unfolding roll_back
    roll_back-Settles s made d failure running i t known rolls =
        (Phase.Settles-transition port c id mechanism environment path before plan) s rolling_back
          (Since made) d _
          ((Phase.Since-Some port c id mechanism environment path before plan) made) running i t
          λ now j u. Triple-bind _ _ (execute_rollback-Rolls made now.id j) λ rollback_failure.
            finish_rollback-Settles made now failure rollback_failure j u known rolls

    pub finish_primary_failure-Settles :
        (s : DeploymentState) (made : List MechanismCall) (d : Deployment)
        (failure : DeploymentFailure)
        → is_terminal s ≡ false
        → d.id ≡ id
        → d.state ≡ s
        → state_of_step failure.step ≡ s
        → Settles s
            (Since made)
            (finish_primary_failure port mechanism config d plan environment failure)
    unfolding finish_primary_failure record_failure
    finish_primary_failure-Settles s made d failure running i t at_step =
        let of_state : is_unknown failure
            ≡ (is_operation_timed_out failure.code && has_live_mutation_started d.state) =
          ap (λ x. is_operation_timed_out failure.code && has_live_mutation_started x)
            (at_step ∙ sym t) in
        Triple-if (is_operation_timed_out failure.code && has_live_mutation_started d.state) _ _
          (λ cut. Triple-pure (outcome d (some failure) none false) (λ w h. (
            i,
            h.0 ∙ ap some (sym t),
            Ending.cut_off failure (t ∙ sym at_step) refl refl (of_state ∙ cut) (made, h.1),
            refl,
          )))
          (λ whole.
            Triple-if (not (requires_rollback_after_failure plan failure.step)) _ _
              (λ plain.
                (Phase.Settles-end port c id mechanism environment path before plan) s failed
                  (Since made) d (some failure) none
                  ((Phase.Since-Some port c id mechanism environment path before plan) made) running
                  i t
                  (λ now calls u h.
                    Ending.recorded failure u refl refl (of_state ∙ whole) (ground (arith, plain))
                      (made, h)))
              (λ rolls.
                roll_back-Settles s made d failure running i t (of_state ∙ whole)
                  (ground (arith, rolls))))
