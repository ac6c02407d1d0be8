-- ===== src/Sql/Statements.antt =====
-- SELECT, UPDATE and DELETE with a WHERE clause, COUNT(*), SUM and ORDER BY.
use sund.Prelude.{ℕ, suc, ◌+◌, Bool, true, false, List, [], ◌∷◌, Option, none, some, if◌then◌else◌}

module _ {ℓ} {A : Type ℓ} where
  -- SELECT ... WHERE p, in the table's order.
  unfoldable pub select : (A → Bool) → List A → List A
  select p [] = []
  select p (x ∷ xs) = let rest = select p xs in if p x then x ∷ rest else rest

  -- QueryRow: the first row of SELECT ... WHERE p, or `none` for sql.ErrNoRows.
  unfoldable pub find_row : (A → Bool) → List A → Option A
  find_row p [] = none
  find_row p (x ∷ xs) = let rest = find_row p xs in if p x then some x else rest

  -- UPDATE ... SET f WHERE p.
  unfoldable pub update : (A → Bool) → (A → A) → List A → List A
  update p f [] = []
  update p f (x ∷ xs) = (if p x then f x else x) ∷ update p f xs

  -- DELETE FROM ... WHERE p.
  unfoldable pub delete_rows : (A → Bool) → List A → List A
  delete_rows p [] = []
  delete_rows p (x ∷ xs) = let rest = delete_rows p xs in if p x then rest else x ∷ rest

  -- SELECT COUNT(*) ... WHERE p; also RowsAffected of an UPDATE or DELETE.
  unfoldable pub count : (A → Bool) → List A → ℕ
  count p [] = 0
  count p (x ∷ xs) = if p x then suc (count p xs) else count p xs

  -- EXISTS (SELECT ... WHERE p).
  unfoldable pub has_row : (A → Bool) → List A → Bool
  has_row p [] = false
  has_row p (x ∷ xs) = if p x then true else has_row p xs

  -- SELECT COALESCE(SUM(f), 0) ... WHERE p.
  unfoldable pub total : (A → ℕ) → (A → Bool) → List A → ℕ
  total f p [] = 0
  total f p (x ∷ xs) = (if p x then f x else 0) + total f p xs

  -- `x` before the first row that it precedes.
  unfoldable pub insert_by : (A → A → Bool) → A → List A → List A
  insert_by before x [] = x ∷ []
  insert_by before x (y ∷ ys) =
      let later = y ∷ insert_by before x ys in if before x y then x ∷ y ∷ ys else later

  -- ORDER BY, as an insertion sort.
  unfoldable pub order_by : (A → A → Bool) → List A → List A
  unfolding insert_by
  order_by before [] = []
  order_by before (x ∷ xs) = insert_by before x (order_by before xs)
