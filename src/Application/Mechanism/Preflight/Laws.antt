-- ===== src/Application/Mechanism/Preflight/Laws.antt =====
-- A preflight that succeeds has found every task that the environment uses.
use deploy_mcp.Prelude.{
  String, ◌≡◌, refl, ap, ◌∙◌, true, ◌⊎◌, inl, inr, Option, none, some, List, [], ◌∷◌, Result, ok,
  err, is_empty, str_eq, eq_iff, eq_refl, arith, Bool-cases,
}
use deploy_mcp.Config.{EnvironmentConfig}
use deploy_mcp.Ports.{RemoteExecutionError, RemoteTargetCheck}
use deploy_mcp.Application.Mechanism.{
  Timed, done, elapsed, RemotePreflightError, RemotePreflightReport, RemoteExecutionPort,
}
use deploy_mcp.Application.Mechanism.Preflight.{
  insert, from_list, contains, difference, insert_optional, required_tasks, judged, listed, checked,
  preflight_remote_capabilities,
}

pub contains-insert :
    (task : String) (tasks : List String) → contains task (insert task tasks) ≡ true
unfolding contains insert
contains-insert task [] = ground (arith, eq_refl task)
contains-insert task (t ∷ ts) = ground (arith, eq_refl task, contains-insert task ts)

pub insert-keeps :
    (task new : String) (tasks : List String)
    → contains task tasks ≡ true
    → contains task (insert new tasks) ≡ true
unfolding contains insert
insert-keeps task new [] h = cc
insert-keeps task new (t ∷ ts) h = ground (arith, insert-keeps task new ts)

pub from_list-keeps :
    (task : String) (tasks : List String)
    → contains task tasks ≡ true
    → contains task (from_list tasks) ≡ true
unfolding contains from_list
from_list-keeps task [] h = cc
from_list-keeps task (t ∷ ts) h = elim (Bool-cases (str_eq task t)) [
  | inl same ↦
      ap (λ x. contains x (insert t (from_list ts))) ((eq_iff task t).0 same)
      ∙ contains-insert t (from_list ts)
  | inr other ↦ insert-keeps task t (from_list ts) (from_list-keeps task ts (ground arith))
]

-- Where nothing is missing, what is required is available.
pub difference-contains :
    (task : String) (required available : List String)
    → is_empty (difference required available) ≡ true
    → contains task required ≡ true
    → contains task available ≡ true
unfolding difference contains
difference-contains task [] available h k = cc
difference-contains task (t ∷ ts) available h k = elim (Bool-cases (str_eq task t)) [
  | inl same ↦ ap (λ x. contains x available) ((eq_iff task t).0 same) ∙ ground arith
  | inr other ↦ difference-contains task ts available (ground arith) (ground arith)
]

-- The environment's deployments run the task.
abbrev pub Uses : EnvironmentConfig → String → Type 0
Uses environment task =
    let tasks = environment.tasks in
    (task ≡ tasks.backup)
    ⊎ ((task ≡ tasks.install)
        ⊎ ((task ≡ tasks.restart)
            ⊎ ((task ≡ tasks.health_check)
                ⊎ ((tasks.precheck ≡ some task) ⊎ (tasks.rollback ≡ some task)))))

insert_optional-keeps :
    (task : String) (new : Option String) (tasks : List String)
    → contains task tasks ≡ true
    → contains task (insert_optional new tasks) ≡ true
unfolding insert_optional
insert_optional-keeps task none tasks h = h
insert_optional-keeps task (some new) tasks h = insert-keeps task new tasks h

insert_optional-some :
    (task : String) (new : Option String) (tasks : List String)
    → new ≡ some task
    → contains task (insert_optional new tasks) ≡ true
unfolding insert_optional
insert_optional-some task new tasks h =
    ap (λ o. contains task (insert_optional o tasks)) h ∙ contains-insert task tasks

required_tasks-Uses :
    (environment : EnvironmentConfig) (task : String)
    → Uses environment task
    → contains task (required_tasks environment) ≡ true
unfolding required_tasks contains
required_tasks-Uses environment task u =
    let tasks = environment.tasks in
    let four = tasks.backup ∷ tasks.install ∷ tasks.restart ∷ tasks.health_check ∷ [] in
    let up = λ (h : contains task four ≡ true).
      insert_optional-keeps task tasks.rollback _
        (insert_optional-keeps task tasks.precheck _ (from_list-keeps task four h)) in
    elim u [
      | inl b ↦ up (ground (arith, (eq_iff task tasks.backup).1 b))
      | inr (inl i) ↦ up (ground (arith, (eq_iff task tasks.install).1 i))
      | inr (inr (inl r)) ↦ up (ground (arith, (eq_iff task tasks.restart).1 r))
      | inr (inr (inr (inl c))) ↦ up (ground (arith, (eq_iff task tasks.health_check).1 c))
      | inr (inr (inr (inr (inl p)))) ↦
          insert_optional-keeps task tasks.rollback _ (insert_optional-some task tasks.precheck _ p)
      | inr (inr (inr (inr (inr r)))) ↦ insert_optional-some task tasks.rollback _ r
    ]

module _ {R : Type 0} (port : RemoteExecutionPort R) (environment : EnvironmentConfig)
    (report : RemotePreflightReport) (after : R) where
  -- The target listed these tasks.
  Listed : R → Type 0
  Listed r = port.list_tasks environment.target r ≡ (done (ok report.available_tasks), after)

  -- The report names the target and offers what the environment requires.
  Complete : Type 0
  Complete =
      (report.target ≡ environment.target)
      × ((task : String)
          → contains task (required_tasks environment) ≡ true
          → contains task report.available_tasks ≡ true)

  judged-Complete :
      (identity : Option String) (available : List String)
      → judged port environment.target identity available
          (difference (required_tasks environment) available)
        ≡ ok report
      → (available ≡ report.available_tasks) × Complete
  unfolding judged Complete
  judged-Complete identity available h =
      elim (Bool-cases (is_empty (difference (required_tasks environment) available))) [
        | inl none_missing ↦ (
          ground arith,
          (
            ground arith,
            λ task required.
                let found =
                  difference-contains task (required_tasks environment) available none_missing
                    required in
                let same : available ≡ report.available_tasks = ground arith in cc,
          ),
        )
        | inr missing ↦ cc
      ]

  listed-Complete :
      (identity : Option String) (r : Timed (Result RemoteExecutionError (List String)) × R)
      → listed port environment identity r ≡ (done (ok report), after)
      → (r ≡ (done (ok report.available_tasks), after)) × Complete
  unfolding listed
  listed-Complete identity (elapsed, r) h = cc
  listed-Complete identity (done (err e), r) h = cc
  listed-Complete identity (done (ok available), r) h =
      let (same, complete) = judged-Complete identity available (ground arith) in
      (
        cc (
          ap (λ (x : Timed (Result RemotePreflightError RemotePreflightReport) × R). x.1) h,
          same,
        ),
        complete,
      )

  checked-Complete :
      (r : Timed (Result RemoteExecutionError RemoteTargetCheck) × R)
      → checked port environment r ≡ (done (ok report), after)
      → (check : RemoteTargetCheck) × (listing : R) × (r ≡ (done (ok check), listing))
        × (check.reachable ≡ true)
        × Listed listing
        × Complete
  unfolding checked Listed
  checked-Complete (elapsed, r) h = cc
  checked-Complete (done (err e), r) h = cc
  checked-Complete (done (ok check), r) h = elim (Bool-cases check.reachable) [
    | inl reached ↦
        let (listing, complete) =
          listed-Complete check.remote_identity (port.list_tasks environment.target r)
            (ground arith) in
        (check, r, refl, reached, listing, complete)
    | inr unreached ↦ cc
  ]

  -- The target answered that it is reachable, and then listed the tasks of the report.
  abbrev pub Reached : R → Type 0
  Reached before =
      (check : RemoteTargetCheck) × (listing : R) × (port.check_target environment.target before
        ≡ (done (ok check), listing))
      × (check.reachable ≡ true)
      × (port.list_tasks environment.target listing ≡ (done (ok report.available_tasks), after))

  -- Where a preflight succeeds, the environment's target has answered that it is reachable and has then
  -- listed tasks, and these hold every task that a deployment or a rollback of the environment runs.
  pub preflight_complete :
      (before : R) (task : String)
      → preflight_remote_capabilities port environment before ≡ (done (ok report), after)
      → Uses environment task
      → Reached before
        × (report.target ≡ environment.target)
        × (contains task report.available_tasks ≡ true)
  unfolding preflight_remote_capabilities Complete Listed
  preflight_complete before task h uses =
      let (check, listing, answered, reachable, listed_here, complete) =
        checked-Complete (port.check_target environment.target before) h in
      (
        (check, listing, answered, reachable, listed_here),
        complete.0,
        complete.1 task (required_tasks-Uses environment task uses),
      )
