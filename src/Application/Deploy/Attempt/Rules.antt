-- ===== src/Application/Deploy/Attempt/Rules.antt =====
-- What the durable store says of a deployment around the calls of the repository and the recorded
-- attempts, for any repository that fulfils the contract.
use deploy_mcp.Prelude.{
  ℕ, zero, suc, String, ◌≡◌, refl, sym, ap, ◌∙◌, true, false, List, ◌∷◌, Option, none, some, Result,
  ok, err, map_err, if◌then◌else◌, ◌==◌,
}
use deploy_mcp.Error.{is_operation_timed_out}
use deploy_mcp.Domain.State.{DeploymentState, is_terminal}
use deploy_mcp.Domain.Release.{DeploymentId, DeploymentError}
use deploy_mcp.Domain.Plan.{DeploymentStep}
use deploy_mcp.Domain.Deployment
use deploy_mcp.Domain.Deployment.{Deployment}
use deploy_mcp.Domain.Deployment.Laws.{transition-ok}
use deploy_mcp.Ports.{
  RepositoryError, RepositoryResult, DeploymentRepository, StepAttemptId, succeeded, failed,
}
use deploy_mcp.Ports.Contract.{Contract}
use deploy_mcp.Application.Mechanism.{Timed, DeploymentMechanismPort}
use deploy_mcp.Config.{EnvironmentConfig}
use deploy_mcp.Application.Exec.{
  App, error, pure, Triple, Triple-pure, Triple-raise, Triple-bind, Triple-if, Triple-panic, Ends,
}
use deploy_mcp.Application.Deploy.Failure.{DeploymentFailure, persisted_message, repository_error}
use deploy_mcp.Application.Deploy.Failure.Laws.{Of}
use deploy_mcp.Application.Deploy.Attempt.Trace.{
  Ran, Traced, Worked, Durable, step_of, state_during,
}
use deploy_mcp.Application.Deploy.Attempt.{
  World, Call, MechanismCall, repository, await, start_attempt, finish_attempt, finish_from_failure,
  attempt_step, advance, transition, retry_verification, after_verification,
}

Ends-repository :
    {S R A : Type 0} (Done : A → World S R → Type 0) (Stopped : World S R → Type 0)
    (r : RepositoryResult A) (w : World S R)
    → ((a : A) → r ≡ ok a → Done a w)
    → ((e : RepositoryError) → r ≡ err e → Stopped w)
    → Ends Done Stopped (map_err (λ e. error (repository_error e)) r, w)
Ends-repository Done Stopped (ok a) w hok herr = hok a refl
Ends-repository Done Stopped (err e) w hok herr = herr e refl

abbrev after : {S R : Type 0} → World S R → S → World S R
after w s = record w { repository = s }

module _ {S R A : Type 0} {Pre Stopped : World S R → Type 0} {Done : A → World S R → Type 0}
    (op : S → RepositoryResult A × S) where
  pub Triple-repository :
      ((w : World S R)
        → Pre w
        → (a : A) → (op w.repository).0 ≡ ok a
        → Done a (after w (op w.repository).1))
      → ((w : World S R)
          → Pre w
          → (e : RepositoryError) → (op w.repository).0 ≡ err e
          → Stopped (after w (op w.repository).1))
      → Triple Pre (repository op) Done Stopped
  unfolding repository
  Triple-repository hok herr = record {
    at = λ w h.
        Ends-repository Done Stopped (op w.repository).0 (after w (op w.repository).1) (hok w h)
          (herr w h);
  }

module _ {S R : Type 0} (port : DeploymentRepository S) (c : Contract port) (id : DeploymentId)
    (mechanism : DeploymentMechanismPort R) (environment : EnvironmentConfig) (path : String)
    (before : List (Call S R)) where
  -- The store holds the deployment in a state.
  abbrev pub Stored : DeploymentState → World S R → Type 0
  Stored s w = c.stored w.repository id ≡ some s

  -- The store holds the deployment in a state that is not terminal.
  abbrev pub Open : World S R → Type 0
  Open w = (s : DeploymentState) × (c.stored w.repository id ≡ some s) × (is_terminal s ≡ false)

  abbrev Since : List MechanismCall → List (Call S R) → Type 0
  Since = Ran port c id mechanism environment path before

  abbrev Traces : List (Call S R) → Type 0
  Traces = Traced port c id mechanism environment path before

  -- The store holds the deployment in the state, and the calls are as `Q` says.
  abbrev pub Holding : DeploymentState → (List (Call S R) → Type 0) → World S R → Type 0
  Holding s Q w = Stored s w × Q w.calls

  -- The store holds the deployment in the state, and these calls have worked.
  abbrev pub At : DeploymentState → List MechanismCall → World S R → Type 0
  At s made w = Stored s w × Since made w.calls

  -- A call that stops leaves the deployment open, and every call of the mechanism was recorded first.
  abbrev pub Halted : World S R → Type 0
  Halted w = Open w × Traces w.calls

  -- What an attempt that was judged says of the calls.
  abbrev pub Judged :
      List MechanismCall
      → MechanismCall
      → DeploymentStep
      → Option DeploymentFailure
      → List (Call S R)
      → Type 0
  Judged made call step none calls = Since (call ∷ made) calls
  Judged made call step (some f) calls = Since made calls × (f.step ≡ step)

  Judged-Traces :
      (made : List MechanismCall) (call : MechanismCall) (step : DeploymentStep)
      (f : Option DeploymentFailure) (calls : List (Call S R))
      → Judged made call step f calls
      → Traces calls
  Judged-Traces made call step none calls h = (call ∷ made, h)
  Judged-Traces made call step (some f) calls h = (made, h.0)

  judge :
      (made : List MechanismCall) (call : MechanismCall) (step : DeploymentStep)
      (v : Option DeploymentFailure) (calls : List (Call S R))
      → (v ≡ none → Since (call ∷ made) calls)
      → Since made calls
      → Of step v
      → Judged made call step v calls
  judge made call step none calls hit miss own = hit refl
  judge made call step (some f) calls hit miss own = (miss, own f refl)

  module _ (s : DeploymentState) (running : is_terminal s ≡ false) where
    Triple-untouched :
        {A : Type 0} (op : S → RepositoryResult A × S) (Q : List (Call S R) → Type 0)
        → ((r : S) → c.stored (op r).1 id ≡ c.stored r id)
        → ((calls : List (Call S R)) → Q calls → Traces calls)
        → Triple {A = A} (Holding s Q) (repository op) (λ a. Holding s Q) Halted
    Triple-untouched op Q same traced =
        Triple-repository op (λ w h a e. (same w.repository ∙ h.0, h.1))
          (λ w h x e. ((s, same w.repository ∙ h.0, running), traced w.calls h.1))

    Triple-finish :
        (attempt : StepAttemptId) (failure : Option DeploymentFailure)
        (Q : List (Call S R) → Type 0)
        → ((calls : List (Call S R)) → Q calls → Traces calls)
        → Triple (Holding s Q) (finish_from_failure port attempt failure) (λ a. Holding s Q) Halted
    unfolding finish_from_failure finish_attempt
    Triple-finish attempt none Q traced =
        Triple-untouched (port.finish_step attempt succeeded none) Q
          (c.stored-finish_step attempt succeeded none id) traced
    Triple-finish attempt (some failure) Q traced =
        Triple-untouched (port.finish_step attempt failed (some (persisted_message failure))) Q
          (c.stored-finish_step attempt failed (some (persisted_message failure)) id) traced

    Triple-start :
        (made : List MechanismCall) (step : DeploymentStep)
        → Triple
            (At s made)
            (start_attempt port id step)
            (λ a w. (c.started w.repository id step ≡ true) × At s made w)
            Halted
    unfolding start_attempt
    Triple-start made step =
        Triple-repository (port.start_step id step)
          (λ w h a e. (
            c.start-ok id step w.repository a e,
            (c.stored-start_step id id step w.repository ∙ h.0, h.1),
          ))
          (λ w h x e.
            ((s, c.stored-start_step id id step w.repository ∙ h.0, running), (made, h.1)))

    module _ {A : Type 0} (made : List MechanismCall) (step : DeploymentStep) (call : MechanismCall)
        (operation : R → Timed A × R) (verdict : Timed A → Option DeploymentFailure)
        (hit : (r : R)
          → verdict (operation r).0 ≡ none
          → Worked port c id mechanism environment path before call r)
        (own : (r : R) → Of step (verdict (operation r).0)) where
      Triple-await :
          step_of call ≡ some step
          → state_during call step ≡ s
          → Triple
              (λ w. (c.started w.repository id step ≡ true) × At s made w)
              (await call operation)
              (λ r w. Stored s w × Judged made call step (verdict r) w.calls)
              Halted
      unfolding await
      Triple-await in_step at_state = record {
        at = λ w h.
            let event : Call S R = record {
              made = call;
              store = w.repository;
              remote = w.remote;
            } in
            let durable : Durable port c id mechanism environment path before event =
              (step, in_step, h.0, h.1.0 ∙ ap some (sym at_state)) in
            (
              h.1.0,
              judge made call step (verdict (operation w.remote).0) (event ∷ w.calls)
                  (λ fine. Ran.worked event h.1.1 durable (hit w.remote fine))
                  (Ran.tried event h.1.1 durable) (own w.remote),
            );
      }

      one_attempt :
          step_of call ≡ some step
          → state_during call step ≡ s
          → Triple
              (At s made)
              (attempt_step port id step call operation verdict)
              (λ f w. Stored s w × Judged made call step f w.calls)
              Halted
      unfolding attempt_step
      one_attempt in_step at_state = Triple-bind _ _ (Triple-start made step) λ attempt.
          Triple-bind _ _ (Triple-await in_step at_state) λ result.
            Triple-bind _ _
              (Triple-finish attempt (verdict result) (Judged made call step (verdict result))
                (Judged-Traces made call step (verdict result)))
              λ u. Triple-pure (verdict result) (λ w h. h)

      -- A recorded attempt leaves the durable state as it is, also where it is cut short. The call was made
      -- once its attempt was durable, and it worked where there is no failure.
      pub Triple-attempt_step :
          (j : DeploymentId)
          → j ≡ id
          → step_of call ≡ some step
          → state_during call step ≡ s
          → Triple
              (At s made)
              (attempt_step port j step call operation verdict)
              (λ f w. Stored s w × Judged made call step f w.calls)
              Halted
      Triple-attempt_step j e in_step at_state = rw e (one_attempt in_step at_state)

    module _ (Q : List (Call S R) → Type 0)
        (traced : (calls : List (Call S R)) → Q calls → Traces calls) where
      Triple-advance :
          (d : Deployment) (next : DeploymentState) (r : Result DeploymentError Deployment)
          → d.id ≡ id
          → d.state ≡ s
          → ((d' : Deployment) → r ≡ ok d' → d' ≡ record d { state = next })
          → Triple
              (Holding s Q)
              (advance port d next r)
              (λ now w. ((now.id ≡ id) × (now.state ≡ next)) × Holding next Q w)
              Halted
      unfolding advance
      Triple-advance d next (err e) i t h =
          Triple-raise _ (λ w at_s. ((s, at_s.0, running), traced w.calls at_s.1))
      Triple-advance d next (ok d') i t h =
          Triple-bind {Mid = λ u. Holding next Q} _ _
            (Triple-repository (port.persist_transition d.id d.state next)
              (λ w at_s u e. (cc (i, (c.persist-ok d.id d.state next w.repository e).1), at_s.1))
              (λ w at_s x e. (
                (s, cc (i, c.persist-err d.id d.state next w.repository x e, at_s.0), running),
                traced w.calls at_s.1,
              )))
            λ u. Triple-pure d' (λ w at_next. (
              (
                ap (λ (x : Deployment). x.id) (h d' refl) ∙ i,
                ap (λ (x : Deployment). x.state) (h d' refl),
              ),
              at_next,
            ))

      -- A transition that the service makes is durable when it returns; where it fails, the store still
      -- holds the deployment in the state before it.
      pub Triple-transition :
          (d : Deployment) (next : DeploymentState)
          → d.id ≡ id
          → d.state ≡ s
          → Triple
              (Holding s Q)
              (transition port d next)
              (λ now w. ((now.id ≡ id) × (now.state ≡ next)) × Holding next Q w)
              Halted
      unfolding transition
      Triple-transition d next i t =
          Triple-advance d next (Deployment.transition d next) i t
            (λ d' e. (transition-ok d d' next e).0)

    module _ (made : List MechanismCall) (call : MechanismCall) (step : DeploymentStep) where
      abbrev pub Verified : Option DeploymentFailure → World S R → Type 0
      Verified f w = Stored s w × Judged made call step f w.calls

      Triple-after :
          (left : ℕ) (again : App (World S R) (Option DeploymentFailure))
          (failure : Option DeploymentFailure)
          → Triple (At s made) again Verified Halted
          → Triple (Verified failure) (after_verification left again failure) Verified Halted
      unfolding after_verification
      Triple-after left again none h = Triple-pure none (λ w p. p)
      Triple-after left again (some failure) h =
          let stop : App (World S R) (Option DeploymentFailure) = pure (some failure) in
          let stops : Triple (Verified (some failure)) stop Verified Halted =
            Triple-pure (some failure) (λ w p. p) in
          let next : Triple (Verified (some failure)) again Verified Halted = record {
            at = λ w p. h.at w (p.0, p.1.0);
          } in
          Triple-if (is_operation_timed_out failure.code) stop (if left == 0 then stop else again)
            (λ e. stops) (λ e. Triple-if (left == 0) stop again (λ e'. stops) (λ e'. next))

      -- A loop of attempts ends as the last one was judged.
      pub Triple-retry_verification :
          (verify : App (World S R) (Option DeploymentFailure)) (n : ℕ)
          → Triple (At s made) verify Verified Halted
          → Triple (At s made) (retry_verification verify n) Verified Halted
      unfolding retry_verification
      Triple-retry_verification verify zero h =
          Triple-panic _ (λ w p. ((s, p.0, running), (made, p.1)))
      Triple-retry_verification verify (suc n) h = Triple-bind _ _ h λ failure.
          Triple-after n (retry_verification verify n) failure
            (Triple-retry_verification verify n h)
