-- ===== src/Persistence/Guarded.antt =====
-- The invariant of the indexes and triggers together: in an environment at most one deployment is active,
-- at most one rollback operation is started, and never both.
pub mod History
pub mod Blocked
use deploy_mcp.Prelude.{
  ℕ, String, ◌≡◌, ◌≢◌, refl, sym, ap, ◌∙◌, Bool, true, false, not, ◌&&◌, ◌||◌, Option, none, some,
  List, [], ◌∷◌, ◌++◌, any, find?, str_eq, if◌then◌else◌, arith, eq_iff, Bool-cases, inl, inr,
}
use mathlib.Core.Path.{subst}
use deploy_mcp.Persistence.Schema.{
  Database, DeploymentRow, OperationRow, is_active_row, active_in, started_in, same_environment,
}
use deploy_mcp.Persistence.Progress.{update_state}
use deploy_mcp.Persistence.Exclusive.{Exclusive, any-append, any-update_state, any-found}

abbrev pub is_started : OperationRow → Bool
is_started row = str_eq row.state "started"

abbrev pub OneStarted : List OperationRow → Type 0
OneStarted [] = Unit {0}
OneStarted (o ∷ os) =
    (is_started o ≡ true → any (started_in o.application_id o.environment_id) os ≡ false)
    × OneStarted os

abbrev pub Apart : List OperationRow → List DeploymentRow → Type 0
Apart [] rows = Unit {0}
Apart (o ∷ os) rows =
    (is_started o ≡ true → any (active_in o.application_id o.environment_id) rows ≡ false)
    × Apart os rows

abbrev pub Guarded : Database → Type 0
Guarded db =
    Exclusive db.deployments
    × OneStarted db.rollback_operations
    × Apart db.rollback_operations db.deployments

-- A row of one environment with another's.
crossed :
    (o : OperationRow) (row : DeploymentRow)
    → is_started o ≡ true
    → started_in row.application_id row.environment_id o ≡ false
    → active_in o.application_id o.environment_id row ≡ false
unfolding started_in active_in same_environment
crossed o row s h = ground (
  arith,
  eq_iff row.application_id o.application_id,
  eq_iff o.application_id row.application_id,
  eq_iff row.environment_id o.environment_id,
  eq_iff o.environment_id row.environment_id,
)

pub Apart-append :
    (os : List OperationRow) (rows : List DeploymentRow) (row : DeploymentRow)
    → Apart os rows
    → any (started_in row.application_id row.environment_id) os ≡ false
    → Apart os (rows ++ row ∷ [])
Apart-append [] rows row x free = tt
Apart-append (o ∷ os) rows row x free = (
  λ s.
      any-append (active_in o.application_id o.environment_id) rows row (x.0 s)
        (crossed o row s (ground arith)),
  Apart-append os rows row x.1 (ground arith),
)

-- The update makes no row active that was not.
module _ (id from to : String) (now : ℕ) where
  still :
      (o : OperationRow) (rows : List DeploymentRow) (row : DeploymentRow)
      → (is_active_row (record row { state = to; updated_at_unix_ms = now }) ≡ true
          → is_active_row row ≡ true)
      → find? (λ row. str_eq row.id id) rows ≡ some row
      → any (active_in o.application_id o.environment_id) rows ≡ false
      → active_in o.application_id o.environment_id
          (record row { state = to; updated_at_unix_ms = now })
        ≡ false
  unfolding active_in
  still o rows row keeps found clear =
      ground (arith, any-found (active_in o.application_id o.environment_id) _ rows row clear found)

  pub Apart-update_state :
      (os : List OperationRow) (rows : List DeploymentRow) (row : DeploymentRow)
      → (is_active_row (record row { state = to; updated_at_unix_ms = now }) ≡ true
          → is_active_row row ≡ true)
      → find? (λ row. str_eq row.id id) rows ≡ some row
      → Apart os rows
      → Apart os (update_state id from to now rows)
  Apart-update_state [] rows row keeps found x = tt
  Apart-update_state (o ∷ os) rows row keeps found x = (
    λ s.
        any-update_state id from to now (active_in o.application_id o.environment_id) rows row
          (x.0 s) found (still o rows row keeps found (x.0 s)),
    Apart-update_state os rows row keeps found x.1,
  )

-- The same operations, of which some may have ended.
abbrev pub Fewer : List OperationRow → List OperationRow → Type 0
Fewer [] [] = Unit {0}
Fewer (o ∷ os) (p ∷ ps) =
    (p.application_id ≡ o.application_id)
    × (p.environment_id ≡ o.environment_id)
    × (is_started p ≡ true → is_started o ≡ true)
    × Fewer os ps
Fewer _ _ = ⊥

started_in-Fewer :
    (a e : String) (os ps : List OperationRow)
    → Fewer os ps
    → any (started_in a e) os ≡ false
    → any (started_in a e) ps ≡ false
unfolding started_in same_environment
started_in-Fewer a e [] [] f h = refl
started_in-Fewer a e [] (p ∷ ps) f h = elim f [ ]
started_in-Fewer a e (o ∷ os) [] f h = refl
started_in-Fewer a e (o ∷ os) (p ∷ ps) (sa, se, s, f) h =
    ground (arith, started_in-Fewer a e os ps f)

pub OneStarted-Fewer : (os ps : List OperationRow) → Fewer os ps → OneStarted os → OneStarted ps
OneStarted-Fewer [] [] f x = tt
OneStarted-Fewer [] (p ∷ ps) f x = elim f [ ]
OneStarted-Fewer (o ∷ os) [] f x = tt
OneStarted-Fewer (o ∷ os) (p ∷ ps) (sa, se, s, f) x = (
  λ started.
      cc (sa, se, started_in-Fewer o.application_id o.environment_id os ps f (x.0 (s started))),
  OneStarted-Fewer os ps f x.1,
)

pub Apart-Fewer :
    (os ps : List OperationRow) (rows : List DeploymentRow)
    → Fewer os ps
    → Apart os rows
    → Apart ps rows
Apart-Fewer [] [] rows f x = tt
Apart-Fewer [] (p ∷ ps) rows f x = elim f [ ]
Apart-Fewer (o ∷ os) [] rows f x = tt
Apart-Fewer (o ∷ os) (p ∷ ps) rows (sa, se, s, f) x =
    (λ started. cc (sa, se, x.0 (s started)), Apart-Fewer os ps rows f x.1)

any-append-operation :
    (p : OperationRow → Bool) (os : List OperationRow) (o : OperationRow)
    → any p os ≡ false
    → p o ≡ false
    → any p (os ++ o ∷ []) ≡ false
any-append-operation p [] o h q = ground arith
any-append-operation p (x ∷ os) o h q = ground (arith, any-append-operation p os o)

clear_of :
    (o new : OperationRow)
    → is_started o ≡ true
    → started_in new.application_id new.environment_id o ≡ false
    → started_in o.application_id o.environment_id new ≡ false
unfolding started_in same_environment
clear_of o new s h = ground (
  arith,
  eq_iff new.application_id o.application_id,
  eq_iff o.application_id new.application_id,
  eq_iff new.environment_id o.environment_id,
  eq_iff o.environment_id new.environment_id,
)

pub OneStarted-append :
    (os : List OperationRow) (new : OperationRow)
    → OneStarted os
    → any (started_in new.application_id new.environment_id) os ≡ false
    → OneStarted (os ++ new ∷ [])
OneStarted-append [] new x free = (λ s. refl, tt)
OneStarted-append (o ∷ os) new x free = (
  λ s.
      any-append-operation (started_in o.application_id o.environment_id) os new (x.0 s)
        (clear_of o new s (ground arith)),
  OneStarted-append os new x.1 (ground arith),
)

pub Apart-append-operation :
    (os : List OperationRow) (new : OperationRow) (rows : List DeploymentRow)
    → Apart os rows
    → any (active_in new.application_id new.environment_id) rows ≡ false
    → Apart (os ++ new ∷ []) rows
Apart-append-operation [] new rows x free = (λ s. free, tt)
Apart-append-operation (o ∷ os) new rows x free = (x.0, Apart-append-operation os new rows x.1 free)

-- The deployments and the rollback operations are as they were.
abbrev pub Same : Database → Database → Type 0
Same db db' =
    (db'.deployments ≡ db.deployments) × (db'.rollback_operations ≡ db.rollback_operations)

pub Guarded-Same : (db db' : Database) → Guarded db → Same db db' → Guarded db'
Guarded-Same db db' (exclusive, one, apart) (rows, operations) = (
  subst Exclusive (sym rows) exclusive,
  subst OneStarted (sym operations) one,
  subst (Apart db'.rollback_operations) (sym rows)
      (subst (λ os. Apart os db.deployments) (sym operations) apart),
)
