-- ===== src/Application/Deploy/Run/Phase.antt =====
-- The phases of a run: what one begins with, and how it can end.
use deploy_mcp.Prelude.{String, List, ◌∷◌, ◌≡◌, refl, sym, ap, ◌∙◌, false, Option, none, some}
use deploy_mcp.Config.{EnvironmentConfig}
use deploy_mcp.Domain.State.{DeploymentState, is_terminal}
use deploy_mcp.Domain.Release.{DeploymentId}
use deploy_mcp.Domain.Plan.{DeploymentPlan, DeploymentStep, requires_rollback_after_failure}
use deploy_mcp.Domain.Deployment.{Deployment}
use deploy_mcp.Ports.{DeploymentRepository}
use deploy_mcp.Ports.Contract.{Contract}
use deploy_mcp.Application.Mechanism.{DeploymentMechanismPort}
use deploy_mcp.Application.Exec.{App, pure, ◌>>=◌, Triple, Triple-pure, Triple-bind, Triple-given}
use deploy_mcp.Application.Deploy.Failure.{DeploymentFailure, DeploymentOutcome}
use deploy_mcp.Application.Deploy.Attempt.{World, Call, MechanismCall, transition}
use deploy_mcp.Application.Deploy.Attempt.Rules.{Holding, Halted, Judged, Triple-transition}
use deploy_mcp.Application.Deploy.Attempt.Trace.{Ran, Traced}
use deploy_mcp.Application.Deploy.Run.Ending.{Ending}
use deploy_mcp.Application.Deploy.Run.{outcome, on_failure}

module _ {S R : Type 0} (port : DeploymentRepository S) (c : Contract port) (id : DeploymentId)
    (mechanism : DeploymentMechanismPort R) (environment : EnvironmentConfig) (path : String)
    (before : List (Call S R)) (plan : DeploymentPlan) where
  abbrev pub Since : List MechanismCall → List (Call S R) → Type 0
  Since = Ran port c id mechanism environment path before

  abbrev pub Some : List (Call S R) → Type 0
  Some = Traced port c id mechanism environment path before

  abbrev pub Ended : DeploymentOutcome → List (Call S R) → Type 0
  Ended = Ending port c id mechanism environment path before (requires_rollback_after_failure plan)

  -- The outcome's deployment is the stored one, and it has ended as the outcome says.
  abbrev pub Settled : DeploymentOutcome → World S R → Type 0
  Settled o w =
      (o.deployment.id ≡ id)
      × (c.stored w.repository id ≡ some o.deployment.state)
      × Ended o w.calls
      × (o.idempotent_replay ≡ false)

  abbrev pub Halts : World S R → Type 0
  Halts = Halted port c id mechanism environment path before

  abbrev pub Holds : DeploymentState → (List (Call S R) → Type 0) → World S R → Type 0
  Holds = Holding port c id mechanism environment path before

  -- A phase: it settles the deployment, or stops while the stored deployment is not terminal.
  abbrev pub Settles :
      DeploymentState → (List (Call S R) → Type 0) → App (World S R) DeploymentOutcome → Type 0
  Settles s Q m = Triple (Holds s Q) m Settled Halts

  -- The judgement of an attempt.
  abbrev pub Judges :
      List MechanismCall
      → MechanismCall
      → DeploymentStep
      → Option DeploymentFailure
      → List (Call S R)
      → Type 0
  Judges = Judged port c id mechanism environment path before

  -- An attempt of a step after these calls.
  abbrev pub Attempts :
      DeploymentState
      → List MechanismCall
      → MechanismCall
      → DeploymentStep
      → App (World S R) (Option DeploymentFailure)
      → Type 0
  Attempts s made call step m =
      Triple (Holds s (Since made)) m (λ f. Holds s (Judges made call step f)) Halts

  -- A phase that begins with a transition.
  pub Settles-transition :
      (s next : DeploymentState) (Q : List (Call S R) → Type 0) (d : Deployment)
      (rest : Deployment → App (World S R) DeploymentOutcome)
      → ((calls : List (Call S R)) → Q calls → Some calls)
      → is_terminal s ≡ false
      → d.id ≡ id
      → d.state ≡ s
      → ((now : Deployment) → now.id ≡ id → now.state ≡ next → Settles next Q (rest now))
      → Settles s Q (transition port d next >>= rest)
  Settles-transition s next Q d rest traced running i t h =
      Triple-bind _ _
        (Triple-transition port c id mechanism environment path before s running Q traced d next i
          t)
        λ now. Triple-given (rest now) (λ p. h now p.0 p.1)

  pub Settles-end :
      (s next : DeploymentState) (Q : List (Call S R) → Type 0) (d : Deployment)
      (f g : Option DeploymentFailure)
      → ((calls : List (Call S R)) → Q calls → Some calls)
      → is_terminal s ≡ false
      → d.id ≡ id
      → d.state ≡ s
      → ((now : Deployment) (calls : List (Call S R))
          → now.state ≡ next
          → Q calls
          → Ended (outcome now f g false) calls)
      → Settles s Q (transition port d next >>= λ now. pure (outcome now f g false))
  Settles-end s next Q d f g traced running i t ends =
      Settles-transition s next Q d (λ now. pure (outcome now f g false)) traced running i t
        λ now j u.
          Triple-pure (outcome now f g false)
            (λ w h. (j, h.0 ∙ ap some (sym u), ends now w.calls u h.1, refl))

  pub Since-Some :
      (made : List MechanismCall) (calls : List (Call S R)) → Since made calls → Some calls
  Since-Some made calls h = (made, h)

  pub Settles-judged :
      (s : DeploymentState) (made : List MechanismCall) (call : MechanismCall)
      (step : DeploymentStep) (handle : DeploymentFailure → App (World S R) DeploymentOutcome)
      (rest : App (World S R) DeploymentOutcome) (failure : Option DeploymentFailure)
      → ((f : DeploymentFailure) → f.step ≡ step → Settles s (Since made) (handle f))
      → Settles s (Since (call ∷ made)) rest
      → Settles s (Judges made call step failure) (on_failure failure handle rest)
  unfolding on_failure
  Settles-judged s made call step handle rest none handled continued = continued
  Settles-judged s made call step handle rest (some f) handled continued = record {
    at = λ w h. (handled f h.1.1).at w (h.0, h.1.0);
  }

  -- A step that may fail, the handling of its failure and the rest.
  pub Settles-step :
      (s : DeploymentState) (made : List MechanismCall) (call : MechanismCall)
      (step : DeploymentStep) (attempt : App (World S R) (Option DeploymentFailure))
      (handle : DeploymentFailure → App (World S R) DeploymentOutcome)
      (rest : App (World S R) DeploymentOutcome)
      → Attempts s made call step attempt
      → ((f : DeploymentFailure) → f.step ≡ step → Settles s (Since made) (handle f))
      → Settles s (Since (call ∷ made)) rest
      → Settles s (Since made) (attempt >>= λ failure. on_failure failure handle rest)
  Settles-step s made call step attempt handle rest attempts handled continued =
      Triple-bind _ _ attempts
        λ failure. Settles-judged s made call step handle rest failure handled continued
