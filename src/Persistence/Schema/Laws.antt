-- ===== src/Persistence/Schema/Laws.antt =====
-- What a transaction returns and keeps, and finding the row of a key.
use deploy_mcp.Prelude.{
  ℕ, String, ◌≡◌, refl, sym, Bool, true, Option, none, some, List, [], ◌∷◌, ◌++◌, ok, err, find?,
  arith, eq_iff, Result-cases, inl, inr,
}
use mathlib.Core.Path.{subst}
use deploy_mcp.Error.{Message}
use deploy_mcp.Ports.{RepositoryError, RepositoryResult}
use deploy_mcp.Persistence.Schema.{
  Database, Connection, transaction, query, pending, commit, next_call, DeploymentRow,
  deployment_row,
}

module _ {A : Type 0} where
  commit-ok :
      (c : Connection) (r : RepositoryResult (A × Database)) {a : A}
      → (commit c r).0 ≡ ok a
      → r ≡ ok (a, (commit c r).1.database)
  unfolding commit
  commit-ok c (ok (b, db)) h = cc
  commit-ok c (err e) h = cc

  commit-err :
      (c : Connection) (r : RepositoryResult (A × Database)) {e : RepositoryError}
      → (commit c r).0 ≡ err e
      → (commit c r).1.database ≡ c.database
  unfolding commit
  commit-err c (ok (b, db)) h = cc
  commit-err c (err e) h = refl

  module _ (body : ℕ → Database → RepositoryResult (A × Database)) (c : Connection) where
    next-ok :
        (faults : List (Option Message)) {a : A}
        → (next_call body c faults).0 ≡ ok a
        → body c.now c.database ≡ ok (a, (next_call body c faults).1.database)
    unfolding next_call
    next-ok [] h = commit-ok c (body c.now c.database) h
    next-ok (none ∷ faults) h = commit-ok (record c { faults = faults }) (body c.now c.database) h
    next-ok (some m ∷ faults) h = cc

    next-err :
        (faults : List (Option Message)) {e : RepositoryError}
        → (next_call body c faults).0 ≡ err e
        → (next_call body c faults).1.database ≡ c.database
    unfolding next_call
    next-err [] h = commit-err c (body c.now c.database) h
    next-err (none ∷ faults) h = commit-err (record c { faults = faults }) (body c.now c.database) h
    next-err (some m ∷ faults) h = refl

    pub transaction-ok :
        {a : A}
        → (transaction body c).0 ≡ ok a
        → body c.now c.database ≡ ok (a, (transaction body c).1.database)
    unfolding transaction
    transaction-ok h = next-ok c.faults h

    pub transaction-err :
        {e : RepositoryError}
        → (transaction body c).0 ≡ err e
        → (transaction body c).1.database ≡ c.database
    unfolding transaction
    transaction-err h = next-err c.faults h

-- A predicate that every successful body's database has, and the present one, holds after the call.
pub transaction-keeps :
    {A : Type 0} (body : ℕ → Database → RepositoryResult (A × Database)) (c : Connection)
    (P : Database → Type 0)
    → ((a : A) (db : Database) → body c.now c.database ≡ ok (a, db) → P db)
    → P c.database
    → P (transaction body c).1.database
transaction-keeps body c P step here = elim (Result-cases (transaction body c).0) [
  | inl (a, h) ↦ step a (transaction body c).1.database (transaction-ok body c h)
  | inr (e, h) ↦ subst P (sym (transaction-err body c h)) here
]

pub find?-append {ℓ} :
    {A : Type ℓ} (p : A → Bool) (xs : List A) (x : A)
    → find? p xs ≡ none
    → p x ≡ true
    → find? p (xs ++ x ∷ []) ≡ some x
find?-append p [] x h px = ground arith
find?-append p (y ∷ ys) x h px = ground (arith, find?-append p ys x)

pub find?-holds {ℓ} :
    {A : Type ℓ} (p : A → Bool) (xs : List A) {x : A} → find? p xs ≡ some x → p x ≡ true
find?-holds p [] h = cc
find?-holds p (y ∷ ys) {x} h = ground (arith, find?-holds p ys {x = x})

-- The row found for an identifier has it.
pub deployment_row-id :
    (id : String) (db : Database) {row : DeploymentRow}
    → deployment_row id db ≡ some row
    → row.id ≡ id
unfolding deployment_row
deployment_row-id id db {row} h = (eq_iff row.id id).0 (find?-holds _ db.deployments h)

module _ {A : Type 0} (body : Database → RepositoryResult A) (c : Connection) where
  pending-ok :
      (faults : List (Option Message)) {a : A}
      → pending body c faults ≡ ok a
      → body c.database ≡ ok a
  unfolding pending
  pending-ok [] h = h
  pending-ok (none ∷ faults) h = h
  pending-ok (some m ∷ faults) h = cc

  -- A query that succeeds gives what the database holds.
  pub query-ok : {a : A} → query body c ≡ ok a → body c.database ≡ ok a
  unfolding query
  query-ok h = pending-ok c.faults h
