-- ===== src/Persistence/Exclusive.antt =====
-- The invariant of the partial unique index `idx_deployments_active_environment`: an environment has at
-- most one deployment that is not terminal.
use deploy_mcp.Prelude.{
  ℕ, String, ◌≡◌, refl, Bool, true, false, some, List, [], ◌∷◌, ◌++◌, any, find?, str_eq,
  if◌then◌else◌, arith, eq_iff, Bool-cases, inl, inr,
}
use deploy_mcp.Persistence.Names.{is_terminal_name}
use deploy_mcp.Persistence.Schema.{DeploymentRow, is_active_row, active_in, same_environment}
use deploy_mcp.Persistence.Progress.{update_state}

abbrev pub Exclusive : List DeploymentRow → Type 0
Exclusive [] = Unit {0}
Exclusive (r ∷ rs) =
    (is_active_row r ≡ true → any (active_in r.application_id r.environment_id) rs ≡ false)
    × Exclusive rs

-- Two active rows of one environment stand in each other's way.
active_in-swap :
    (a b : DeploymentRow)
    → is_active_row a ≡ true
    → active_in a.application_id a.environment_id b ≡ true
    → active_in b.application_id b.environment_id a ≡ true
unfolding active_in same_environment
active_in-swap a b active h = ground (
  arith,
  eq_iff b.application_id a.application_id,
  eq_iff a.application_id b.application_id,
  eq_iff b.environment_id a.environment_id,
  eq_iff a.environment_id b.environment_id,
)

active_in-active :
    (application environment : String) (row : DeploymentRow)
    → active_in application environment row ≡ true
    → is_active_row row ≡ true
unfolding active_in
active_in-active application environment row h = ground arith

pub any-append :
    (p : DeploymentRow → Bool) (xs : List DeploymentRow) (x : DeploymentRow)
    → any p xs ≡ false
    → p x ≡ false
    → any p (xs ++ x ∷ []) ≡ false
any-append p [] x h px = ground arith
any-append p (y ∷ ys) x h px = ground (arith, any-append p ys x)

pub any-found :
    (p f : DeploymentRow → Bool) (rows : List DeploymentRow) (row : DeploymentRow)
    → any p rows ≡ false
    → find? f rows ≡ some row
    → p row ≡ false
any-found p f [] row h e = cc
any-found p f (r ∷ rows) row h e = ground (arith, any-found p f rows row)

-- A row that may join the others is in no active row's way.
joins :
    (r row : DeploymentRow)
    → is_active_row r ≡ true
    → (is_active_row row ≡ true → active_in row.application_id row.environment_id r ≡ false)
    → active_in r.application_id r.environment_id row ≡ false
joins r row active free = elim (Bool-cases (active_in r.application_id r.environment_id row)) [
  | inl h ↦ ground (
    arith,
    free (active_in-active r.application_id r.environment_id row h),
    active_in-swap r row active h,
  )
  | inr h ↦ h
]

-- Appending a row keeps the invariant where no active row of its environment is there.
pub Exclusive-append :
    (rows : List DeploymentRow) (row : DeploymentRow)
    → Exclusive rows
    → (is_active_row row ≡ true
        → any (active_in row.application_id row.environment_id) rows ≡ false)
    → Exclusive (rows ++ row ∷ [])
Exclusive-append [] row x free = (λ h. refl, tt)
Exclusive-append (r ∷ rows) row x free = (
  λ active.
      any-append (active_in r.application_id r.environment_id) rows row (x.0 active)
        (joins r row active (λ h. let f = free h in ground arith)),
  Exclusive-append rows row x.1 (λ h. let f = free h in ground arith),
)

Exclusive-if :
    (b : Bool) (xs ys : List DeploymentRow)
    → (b ≡ true → Exclusive xs)
    → (b ≡ false → Exclusive ys)
    → Exclusive (if b then xs else ys)
Exclusive-if true xs ys x y = x refl
Exclusive-if false xs ys x y = y refl

Exclusive-head :
    (b : Bool) (r s : DeploymentRow) (rows : List DeploymentRow)
    → Exclusive (r ∷ rows)
    → Exclusive (s ∷ rows)
    → Exclusive ((if b then r else s) ∷ rows)
Exclusive-head true r s rows x y = x
Exclusive-head false r s rows x y = y

module _ (id from to : String) (now : ℕ) where
  abbrev updated : DeploymentRow → DeploymentRow
  updated row = record row { state = to; updated_at_unix_ms = now }

  nonterminal :
      (row : DeploymentRow) → is_active_row (updated row) ≡ true → is_terminal_name to ≡ false
  unfolding is_active_row
  nonterminal row h = ground arith

  pub any-update_state :
      (p : DeploymentRow → Bool) (rows : List DeploymentRow) (row : DeploymentRow)
      → any p rows ≡ false
      → find? (λ row. str_eq row.id id) rows ≡ some row
      → p (updated row) ≡ false
      → any p (update_state id from to now rows) ≡ false
  unfolding update_state
  any-update_state p [] row h e pu = refl
  any-update_state p (r ∷ rows) row h e pu = ground (arith, any-update_state p rows row)

  Free : DeploymentRow → List DeploymentRow → Type 0
  Free row rows =
      is_active_row row ≡ false
      → is_terminal_name to ≡ false
      → any (active_in row.application_id row.environment_id) rows ≡ false

  head-Exclusive :
      (r : DeploymentRow) (rows : List DeploymentRow)
      → Exclusive (r ∷ rows)
      → Free r (r ∷ rows)
      → is_active_row (updated r) ≡ true
      → any (active_in r.application_id r.environment_id) rows ≡ false
  unfolding Free
  head-Exclusive r rows x free active = elim (Bool-cases (is_active_row r)) [
    | inl a ↦ x.0 a
    | inr n ↦ let f = free n (nonterminal r active) in ground arith
  ]

  tail-Exclusive :
      (r row : DeploymentRow) (rows : List DeploymentRow)
      → Exclusive (r ∷ rows)
      → find? (λ row. str_eq row.id id) rows ≡ some row
      → Free row (r ∷ rows)
      → is_active_row r ≡ true
      → is_active_row (updated row) ≡ true
      → active_in row.application_id row.environment_id r ≡ false
  unfolding Free
  tail-Exclusive r row rows x e free active h = elim (Bool-cases (is_active_row row)) [
    | inl a ↦ elim (Bool-cases (active_in row.application_id row.environment_id r)) [
      | inl clash ↦ ground (
        arith,
        active_in-swap row r a clash,
        any-found (active_in r.application_id r.environment_id) _ rows row (x.0 active) e,
      )
      | inr clear ↦ clear
    ]
    | inr n ↦ let f = free n (nonterminal row h) in ground arith
  ]

  pub Exclusive-update_state :
      (rows : List DeploymentRow) (row : DeploymentRow)
      → Exclusive rows
      → find? (λ row. str_eq row.id id) rows ≡ some row
      → (is_active_row row ≡ false
          → is_terminal_name to ≡ false
          → any (active_in row.application_id row.environment_id) rows ≡ false)
      → Exclusive (update_state id from to now rows)
  unfolding update_state Free
  Exclusive-update_state [] row x e free = tt
  Exclusive-update_state (r ∷ rows) row x e free =
      Exclusive-if (str_eq r.id id) _ _
        (λ here.
          Exclusive-head (str_eq r.state from) (updated r) r rows
            (head-Exclusive r rows x (λ n t. let f = free (ground arith) t in ground arith), x.1) x)
        (λ there. (
          λ active.
              any-update_state (active_in r.application_id r.environment_id) rows row (x.0 active)
                (ground arith)
                (joins r (updated row) active
                  (tail-Exclusive r row rows x (ground arith) free active)),
          Exclusive-update_state rows row x.1 (ground arith)
              (λ i t. let f = free i t in ground arith),
        ))
