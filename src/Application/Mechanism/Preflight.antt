-- ===== src/Application/Mechanism/Preflight.antt =====
-- src/application/preflight.rs: the check that a target is reachable and offers the tasks of an environment.
-- A set of tasks is the ordered list of its elements.
pub mod Laws
use deploy_mcp.Prelude.{
  String, Bool, true, false, not, ◌&&◌, Option, none, some, List, [], ◌∷◌, Result, ok, err, any,
  filter, is_empty, str_eq, if◌then◌else◌,
}
use Prim.Native.Nat.{Ordering}
use Prim.Native.String.{compare}
use deploy_mcp.Config.{EnvironmentConfig}
use deploy_mcp.Ports.{RemoteExecutionError, RemoteTargetCheck}
use deploy_mcp.Application.Mechanism.{
  Timed, done, elapsed, RemotePreflightReport, RemotePreflightError, remote, target_unreachable,
  missing_capabilities, RemoteExecutionPort,
}

precedes : Ordering → Bool
precedes Ordering.lt = true
precedes _ = false

-- `BTreeSet::insert`.
unfoldable pub insert : String → List String → List String
unfolding precedes
insert task [] = task ∷ []
insert task (t ∷ ts) =
    let rest = insert task ts in
    if str_eq task t then t ∷ ts else if precedes (compare task t) then task ∷ t ∷ ts else t ∷ rest

-- `BTreeSet::from`.
unfoldable pub from_list : List String → List String
from_list [] = []
from_list (task ∷ tasks) = insert task (from_list tasks)

unfoldable pub contains : String → List String → Bool
contains task tasks = any (str_eq task) tasks

-- The elements of the first set that are not in the second.
unfoldable pub difference : List String → List String → List String
unfolding contains
difference required available = filter (λ task. not (contains task available)) required

insert_optional : Option String → List String → List String
insert_optional none tasks = tasks
insert_optional (some task) tasks = insert task tasks

unfoldable pub required_tasks : EnvironmentConfig → List String
unfolding insert_optional
required_tasks environment =
    let tasks = environment.tasks in
    insert_optional tasks.rollback (
      insert_optional tasks.precheck
        (from_list (tasks.backup ∷ tasks.install ∷ tasks.restart ∷ tasks.health_check ∷ [])))

module _ {R : Type 0} (port : RemoteExecutionPort R) where
  -- The end of a preflight whose target is reachable and whose tasks are known.
  unfoldable pub judged :
      String
      → Option String
      → List String
      → List String
      → Result RemotePreflightError RemotePreflightReport
  judged target identity available missing =
      if not (is_empty missing)
      then err (missing_capabilities target missing)
      else ok (record { target = target; remote_identity = identity; available_tasks = available })

  listed :
      EnvironmentConfig
      → Option String
      → Timed (Result RemoteExecutionError (List String)) × R
      → Timed (Result RemotePreflightError RemotePreflightReport) × R
  listed environment identity (elapsed, r) = (elapsed, r)
  listed environment identity (done (err e), r) = (done (err (remote e)), r)
  listed environment identity (done (ok available), r) = (
    done (
        judged environment.target identity available
          (difference (required_tasks environment) available)),
    r,
  )

  checked :
      EnvironmentConfig
      → Timed (Result RemoteExecutionError RemoteTargetCheck) × R
      → Timed (Result RemotePreflightError RemotePreflightReport) × R
  unfolding listed
  checked environment (elapsed, r) = (elapsed, r)
  checked environment (done (err e), r) = (done (err (remote e)), r)
  checked environment (done (ok check), r) =
      if not check.reachable
      then (done (err (target_unreachable environment.target)), r)
      else listed environment check.remote_identity (port.list_tasks environment.target r)

  unfoldable pub preflight_remote_capabilities :
      EnvironmentConfig → R → Timed (Result RemotePreflightError RemotePreflightReport) × R
  unfolding checked
  preflight_remote_capabilities environment r =
      checked environment (port.check_target environment.target r)
