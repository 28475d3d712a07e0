-- ===== src/Db/Table.antt =====
-- What the SQL statements of src/db.rs do to a table: `UPDATE … WHERE`, `SELECT … WHERE`, and
-- `ORDER BY`, with the rows as a list.
use stellar_gate.Prelude.{ℕ, ◌+◌, Bool, List, [], ◌∷◌, leb, if◌then◌else◌}

module _ {ℓ} {A : Type ℓ} where
  -- UPDATE … SET change WHERE test
  unfoldable pub update_where : (A → Bool) → (A → A) → List A → List A
  update_where test change [] = []
  update_where test change (r ∷ rows) =
      (if test r then change r else r) ∷ update_where test change rows

  -- The number of rows that a test selects: COUNT(*), and `rows_affected` of an update.
  unfoldable pub count_where : (A → Bool) → List A → ℕ
  count_where test [] = 0
  count_where test (r ∷ rows) = (if test r then 1 else 0) + count_where test rows

  unfoldable pub insert_by : (A → ℕ) → A → List A → List A
  insert_by key r [] = r ∷ []
  insert_by key r (s ∷ rows) =
      let rest = s ∷ insert_by key r rows in if leb (key r) (key s) then r ∷ s ∷ rows else rest

  -- ORDER BY key ASC; rows of one key stay in the order of the table.
  unfoldable pub order_by : (A → ℕ) → List A → List A
  unfolding insert_by
  order_by key [] = []
  order_by key (r ∷ rows) = insert_by key r (order_by key rows)
