-- ===== src/Persistence/Order.antt =====
-- `ORDER BY`: the rows of a query in the order of a test, rows that neither precedes the other as they stand.
use deploy_mcp.Prelude.{
  ◌≡◌, refl, ap, ◌∙◌, any, ◌||◌, Bool, true, false, List, [], ◌∷◌, all, if◌then◌else◌, arith,
}
use Prim.Native.Nat.{Ordering}

unfoldable pub at_most : Ordering → Bool
at_most Ordering.gt = false
at_most _ = true

module _ {A : Type 0} (precedes : A → A → Bool) where
  insert_row : A → List A → List A
  insert_row row [] = row ∷ []
  insert_row row (r ∷ rs) =
      let rest = insert_row row rs in if precedes row r then row ∷ r ∷ rs else r ∷ rest

  unfoldable pub order_by : List A → List A
  unfolding insert_row
  order_by [] = []
  order_by (r ∷ rs) = insert_row r (order_by rs)

  all-insert_row :
      (p : A → Bool) (row : A) (rows : List A)
      → p row ≡ true
      → all p rows ≡ true
      → all p (insert_row row rows) ≡ true
  unfolding insert_row
  all-insert_row p row [] h k = ground arith
  all-insert_row p row (r ∷ rs) h k = ground (arith, all-insert_row p row rs)

  -- The same rows, so what all have, all have.
  pub all-order_by :
      (p : A → Bool) (rows : List A) → all p rows ≡ true → all p (order_by rows) ≡ true
  unfolding order_by
  all-order_by p [] h = refl
  all-order_by p (r ∷ rs) h =
      all-insert_row p r (order_by rs) (ground arith) (all-order_by p rs (ground arith))

  any-insert_row :
      (p : A → Bool) (row : A) (rows : List A) → any p (insert_row row rows) ≡ p row || any p rows
  unfolding insert_row
  any-insert_row p row [] = ground arith
  any-insert_row p row (r ∷ rs) = ground (arith, any-insert_row p row rs)

  -- The same rows, so what one of them has, one of them has.
  pub any-order_by : (p : A → Bool) (rows : List A) → any p (order_by rows) ≡ any p rows
  unfolding order_by
  any-order_by p [] = refl
  any-order_by p (r ∷ rs) =
      any-insert_row p r (order_by rs) ∙ ap (λ b. p r || b) (any-order_by p rs)
