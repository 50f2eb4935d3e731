-- ===== src/Persistence/Rollback/Retention/Laws.antt =====
-- What a cleanup of rollback snapshots takes, and what it leaves.
use deploy_mcp.Prelude.{
  ◌&&◌, any, eq_refl, false, sym, ℕ, zero, suc, ◌≤◌, ◌^◌, String, ◌≡◌, ap, ◌∙◌, refl, Bool, true,
  false, not, List, [], ◌∷◌, ◌++◌, ok, filter, map, all, length, str_eq, ltb, ◌==◌, if◌then◌else◌,
  ℤ, arith, eq_iff, Bool-cases, inl, inr,
}
use deploy_mcp.Persistence.Order.{all-order_by}
use deploy_mcp.Ports.{RepositoryResult}
use deploy_mcp.Persistence.Schema.{
  Database, Connection, transaction, ReferenceRow, RetentionRow, ReferenceModelRow,
}
use deploy_mcp.Persistence.Schema.Laws.{transaction-ok, transaction-keeps}
use deploy_mcp.Persistence.Guarded.{Guarded, Same, Guarded-Same}
use deploy_mcp.Persistence.Rollback.Retention.{
  prune_body, prune_inactive_reference_snapshots, selected, take, is_inactive, blank_references,
  blank_row, retain, pruned_now, is_retained, is_prunable, order_by_update,
}

prune_body-Same :
    (cutoff : ℤ) (limit now : ℕ) (db db' : Database) (n : ℕ)
    → prune_body cutoff limit now db ≡ ok (n, db')
    → Same db db'
unfolding prune_body
prune_body-Same cutoff limit now db db' n h = (ground arith, ground arith)

if-keeps :
    (P : RepositoryResult ℕ × Connection → Type 0) (b : Bool)
    (x y : RepositoryResult ℕ × Connection)
    → P x
    → P y
    → P (if b then x else y)
if-keeps P true x y px py = px
if-keeps P false x y px py = py

length-take : (n : ℕ) (rows : List ReferenceRow) → length (take n rows) ≤ n
length-take zero rows = ground arith
length-take (suc n) [] = ground arith
length-take (suc n) (row ∷ rows) = ground (arith, length-take n rows)

-- The active rows of the table.
abbrev pub active_rows : List ReferenceRow → List ReferenceRow
active_rows = filter (λ (row : ReferenceRow). str_eq row.state "active")

-- A row in one state is in no other.
in_one : (s t u : String) → str_eq s t ≡ true → str_eq t u ≡ false → str_eq s u ≡ false
in_one s t u h d = ap (λ x. str_eq x u) ((eq_iff s t).0 h) ∙ d

active_rows-blank_references :
    (now : ℕ) (retention : List RetentionRow) (rows : List ReferenceRow)
    → active_rows (blank_references now retention rows) ≡ active_rows rows
unfolding blank_references is_inactive blank_row
active_rows-blank_references now retention [] = refl
active_rows-blank_references now retention (row ∷ rows) = ground (
  arith,
  active_rows-blank_references now retention rows,
  λ (h : str_eq row.state "active" ≡ true). in_one row.state "active" "superseded" h refl,
  λ (h : str_eq row.state "active" ≡ true). in_one row.state "active" "consumed" h refl,
)

all-take :
    (p : ReferenceRow → Bool) (n : ℕ) (rows : List ReferenceRow)
    → all p rows ≡ true
    → all p (take n rows) ≡ true
all-take p zero rows h = refl
all-take p (suc n) [] h = refl
all-take p (suc n) (row ∷ rows) h = ground (arith, all-take p n rows)

none_retained :
    (now : ℕ) (xs : List RetentionRow) (rows : List ReferenceRow)
    → (length rows == 0) ≡ true
    → xs ≡ xs ++ map (retain now) rows
none_retained now [] [] h = refl
none_retained now (x ∷ xs) [] h = ground (arith, none_retained now xs [] h)
none_retained now xs (row ∷ rows) h = ground arith

module _ (p : ReferenceRow → Bool) where
  -- A reference of the table with the identifier, of which `p` holds.
  abbrev pub among : List ReferenceRow → String → Bool
  among rows id = any (λ (row : ReferenceRow). str_eq row.deployment_id id && p row) rows

  -- The rows of a table that are as `q` says, where that is at least as `p` says, are among its rows.
  filter-among :
      (q : ReferenceRow → Bool) (table rows : List ReferenceRow)
      → ((row : ReferenceRow) → q row ≡ true → p row ≡ true)
      → ((id : String) → among rows id ≡ true → among table id ≡ true)
      → all (λ (row : ReferenceRow). among table row.deployment_id) (filter q rows) ≡ true
  filter-among q table [] h up = refl
  filter-among q table (row ∷ rows) h up =
      let rest =
        filter-among q table rows h
          (λ id here. up id (let k : among (row ∷ rows) id ≡ true = ground arith in k)) in
      elim (Bool-cases (q row)) [
        | inl yes_row ↦
            let own : among (row ∷ rows) row.deployment_id ≡ true =
              let k = h row yes_row in ground (arith, eq_refl row.deployment_id) in
            let here = up row.deployment_id own in ground arith
        | inr no_row ↦ ground arith
      ]

  -- What a cleanup that reports this number has marked as pruned: references of the table.
  abbrev pub Marks : ℕ → Database → ℕ → Database → Type 0
  Marks now db n db' =
      (rows : List ReferenceRow) × (db'.retention ≡ db.retention ++ map (retain now) rows)
      × (n ≡ length rows)
      × (all (λ (row : ReferenceRow). among db.references row.deployment_id) rows ≡ true)

  prune_body-Marks :
      (cutoff : ℤ) (limit now : ℕ) (db db' : Database) (n : ℕ)
      → ((row : ReferenceRow) → is_prunable cutoff db.retention row ≡ true → p row ≡ true)
      → prune_body cutoff limit now db ≡ ok (n, db')
      → Marks now db n db'
  unfolding prune_body selected order_by_update
  prune_body-Marks cutoff limit now db db' n old h =
      let due = filter (is_prunable cutoff db.retention) db.references in
      let Among = λ (row : ReferenceRow). among db.references row.deployment_id in
      (
        selected cutoff limit db,
        ground (arith, none_retained now db.retention (selected cutoff limit db)),
        ground arith,
        all-take Among limit (order_by_update due) (
            all-order_by _ Among due (
              filter-among (is_prunable cutoff db.retention) db.references db.references old
                (λ id here. here))),
      )

  -- Where every prunable row is as `p` says, so is every row that a cleanup marks.
  pub prune_inactive_reference_snapshots-Marks :
      (cutoff : ℤ) (limit : ℕ) (c : Connection) (n : ℕ)
      → ((row : ReferenceRow) → is_prunable cutoff c.database.retention row ≡ true → p row ≡ true)
      → (prune_inactive_reference_snapshots cutoff limit c).0 ≡ ok n
      → Marks c.now c.database n (prune_inactive_reference_snapshots cutoff limit c).1.database
  unfolding prune_inactive_reference_snapshots
  prune_inactive_reference_snapshots-Marks cutoff limit c n old =
      let Marked = λ (r : RepositoryResult ℕ × Connection).
        r.0 ≡ ok n → Marks c.now c.database n r.1.database in
      if-keeps Marked (limit == 0) _ _
        (λ h. ([], none_retained c.now c.database.retention [] refl, ground arith, refl))
        (if-keeps Marked (not (ltb limit (2 ^ 63))) _ _ (λ h. cc)
          (λ h.
            prune_body-Marks cutoff limit c.now c.database
              (transaction (prune_body cutoff limit) c).1.database n old
              (transaction-ok (prune_body cutoff limit) c h)))

-- The rows of a reference in the table of models.
abbrev pub models_of : String → List ReferenceModelRow → List ReferenceModelRow
models_of id = filter (λ (m : ReferenceModelRow). str_eq m.deployment_id id)

is_prunable-is_inactive :
    (cutoff : ℤ) (retention : List RetentionRow) (row : ReferenceRow)
    → is_prunable cutoff retention row ≡ true
    → is_inactive row ≡ true
unfolding is_prunable
is_prunable-is_inactive cutoff retention row h = ground arith

pruned_now-is_retained :
    (now : ℕ) (retention : List RetentionRow) (id : String)
    → is_retained id retention ≡ false
    → pruned_now now retention id ≡ false
unfolding pruned_now is_retained
pruned_now-is_retained now [] id h = refl
pruned_now-is_retained now (r ∷ rs) id h = ground (arith, pruned_now-is_retained now rs id)

-- The models that a cleanup keeps.
kept_models : ℕ → List RetentionRow → List ReferenceModelRow → List ReferenceModelRow
kept_models now retention =
    filter (λ (m : ReferenceModelRow). not (pruned_now now retention m.deployment_id))

models_of-kept_models :
    (now : ℕ) (retention : List RetentionRow) (id : String) (models : List ReferenceModelRow)
    → is_retained id retention ≡ false
    → models_of id (kept_models now retention models) ≡ models_of id models
unfolding kept_models
models_of-kept_models now retention id [] h = refl
models_of-kept_models now retention id (m ∷ ms) h =
    let rest = models_of-kept_models now retention id ms h in
    elim (Bool-cases (str_eq m.deployment_id id)) [
      | inl own ↦
          let kept : pruned_now now retention m.deployment_id ≡ false =
            ap (pruned_now now retention) ((eq_iff m.deployment_id id).0 own)
            ∙ pruned_now-is_retained now retention id h in
          ground arith
      | inr other ↦ ground arith
    ]

-- What a cleanup that reports this number leaves.
abbrev pub Pruned : ℕ → ℕ → Database → ℕ → Database → Type 0
Pruned limit now db n db' =
    (n ≤ limit)
    × Marks is_inactive now db n db'
    × (active_rows db'.references ≡ active_rows db.references)
    × ((id : String)
        → is_retained id db'.retention ≡ false
        → models_of id db'.reference_models ≡ models_of id db.reference_models)

prune_body-Pruned :
    (cutoff : ℤ) (limit now : ℕ) (db db' : Database) (n : ℕ)
    → prune_body cutoff limit now db ≡ ok (n, db')
    → Pruned limit now db n db'
unfolding prune_body selected kept_models
prune_body-Pruned cutoff limit now db db' n h =
    let rows = order_by_update (filter (is_prunable cutoff db.retention) db.references) in
    let retention = db.retention ++ map (retain now) (take limit rows) in
    (
      ground (arith, length-take limit rows),
      prune_body-Marks is_inactive cutoff limit now db db' n
          (is_prunable-is_inactive cutoff db.retention) h,
      ground (arith, active_rows-blank_references now retention db.references),
      λ id unmarked. elim (Bool-cases (length (take limit rows) == 0)) [
        | inl idle ↦ ground arith
        | inr some_rows ↦
            let marked : db'.retention ≡ retention = ground arith in
            let models : db'.reference_models ≡ kept_models now retention db.reference_models =
              ground arith in
            ap (models_of id) models
            ∙ models_of-kept_models now retention id db.reference_models
                (ap (is_retained id) (sym marked) ∙ unmarked)
      ],
    )

module _ (cutoff : ℤ) (limit : ℕ) (c : Connection) where
  Bounded : RepositoryResult ℕ × Connection → Type 0
  Bounded r = (n : ℕ) → r.0 ≡ ok n → Pruned limit c.now c.database n r.1.database

  -- A cleanup marks at most as many references as its limit, each an inactive one of the table, and
  -- reports their number; it leaves every active reference, and the model rows of every reference
  -- without a mark, as they are.
  pub prune_inactive_reference_snapshots-Pruned :
      (n : ℕ)
      → (prune_inactive_reference_snapshots cutoff limit c).0 ≡ ok n
      → Pruned limit c.now c.database n
          (prune_inactive_reference_snapshots cutoff limit c).1.database
  unfolding prune_inactive_reference_snapshots Bounded
  prune_inactive_reference_snapshots-Pruned =
      if-keeps Bounded (limit == 0) _ _
        (λ n h. (
          ground arith,
          ([], none_retained c.now c.database.retention [] refl, ground arith, refl),
          refl,
          λ id unmarked. refl,
        ))
        (if-keeps Bounded (not (ltb limit (2 ^ 63))) _ _ (λ n h. cc)
          (λ n h.
            prune_body-Pruned cutoff limit c.now c.database
              (transaction (prune_body cutoff limit) c).1.database n
              (transaction-ok (prune_body cutoff limit) c h)))

module _ (cutoff : ℤ) (limit : ℕ) (c : Connection) where
  pub prune-Guarded :
      Guarded c.database → Guarded (prune_inactive_reference_snapshots cutoff limit c).1.database
  unfolding prune_inactive_reference_snapshots
  prune-Guarded g =
      if-keeps (λ r. Guarded r.1.database) (limit == 0) _ _ g
        (if-keeps (λ r. Guarded r.1.database) (not (ltb limit (2 ^ 63))) _ _ g
          (transaction-keeps (prune_body cutoff limit) c Guarded
            (λ n db' h.
              Guarded-Same c.database db' g (prune_body-Same cutoff limit c.now c.database db' n h))
            g))
