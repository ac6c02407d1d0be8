-- ===== src/Sql/Laws.antt =====
-- What the statements do to one another.
use sund.Prelude.{
  ℕ, ◌+◌, ◌≤◌, ◌≡◌, refl, inl, inr, Bool, true, false, List, [], ◌∷◌, ◌++◌, subst, none, some,
  if◌then◌else◌, ◌&&◌, arith, length, All, Bool-cases,
}
use sund.Sql.Statements.{select, find_row, update, delete_rows, count, has_row, total}

module _ {ℓ} {A : Type ℓ} (p : A → Bool) where
  pub select-append : (xs ys : List A) → select p (xs ++ ys) ≡ select p xs ++ select p ys
  unfolding select
  select-append [] ys = refl
  select-append (x ∷ xs) ys = ground (arith, select-append xs ys)

  pub select-append_other :
      (xs : List A) (y : A) → p y ≡ false → select p (xs ++ y ∷ []) ≡ select p xs
  unfolding select
  select-append_other [] y h = ground arith
  select-append_other (x ∷ xs) y h = ground (arith, select-append_other xs y h)

  -- A row inserted after the others is found only if none of them is.
  pub find_row-append :
      (xs ys : List A)
      → find_row p (xs ++ ys) ≡ elim (find_row p xs) [ none ↦ find_row p ys | some x ↦ some x ]
  unfolding find_row
  find_row-append [] ys = refl
  find_row-append (x ∷ xs) ys = ground (arith, find_row-append xs ys)

  -- A row with a new key is found.
  pub find_row-insert :
      (xs : List A) (y : A) → has_row p xs ≡ false → p y ≡ true → find_row p (xs ++ y ∷ []) ≡ some y
  unfolding find_row has_row
  find_row-insert [] y h k = ground arith
  find_row-insert (x ∷ xs) y h k = ground (arith, find_row-insert xs y)

  pub find_row-holds : (xs : List A) (x : A) → find_row p xs ≡ some x → p x ≡ true
  unfolding find_row
  find_row-holds [] x h = cc
  find_row-holds (y ∷ ys) x h = ground (arith, find_row-holds ys x)

  pub count-append : (xs ys : List A) → count p (xs ++ ys) ≡ count p xs + count p ys
  unfolding count
  count-append [] ys = omega arith
  count-append (x ∷ xs) ys = ground (arith, count-append xs ys)

  pub select-none : (xs : List A) → has_row p xs ≡ false → select p xs ≡ []
  unfolding select has_row
  select-none [] h = refl
  select-none (x ∷ xs) h = ground (arith, select-none xs)

  pub has_row-delete_rows : (xs : List A) → has_row p (delete_rows p xs) ≡ false
  unfolding has_row delete_rows
  has_row-delete_rows [] = refl
  has_row-delete_rows (x ∷ xs) = ground (arith, has_row-delete_rows xs)

  pub count-has_row : (xs : List A) → has_row p xs ≡ false → count p xs ≡ 0
  unfolding count has_row
  count-has_row [] h = refl
  count-has_row (x ∷ xs) h = ground (arith, count-has_row xs)

  -- The rows affected are those that are gone.
  pub count-delete_rows : (xs : List A) → length (delete_rows p xs) + count p xs ≡ length xs
  unfolding count delete_rows
  count-delete_rows [] = refl
  count-delete_rows (x ∷ xs) = ground (arith, count-delete_rows xs)

module _ {ℓ} {A : Type ℓ} (p q : A → Bool) where
  -- What a DELETE leaves alone is selected as before.
  pub select-delete_rows :
      ((x : A) → q x ≡ true → p x ≡ false)
      → (xs : List A) → select p (delete_rows q xs) ≡ select p xs
  unfolding select delete_rows
  select-delete_rows h [] = refl
  select-delete_rows h (x ∷ xs) = ground (arith, h x, select-delete_rows h xs)

  -- The rows that fit both conditions, whichever is asked first.
  pub select-delete_rows_comm :
      (xs : List A) → select p (delete_rows q xs) ≡ delete_rows q (select p xs)
  unfolding select delete_rows
  select-delete_rows_comm [] = refl
  select-delete_rows_comm (x ∷ xs) = ground (arith, select-delete_rows_comm xs)

  -- Deleting some of the selected rows.
  pub select-delete_both :
      (xs : List A) → select p (delete_rows (λ x. p x && q x) xs) ≡ delete_rows q (select p xs)
  unfolding select delete_rows
  select-delete_both [] = refl
  select-delete_both (x ∷ xs) = ground (arith, select-delete_both xs)

  -- A WHERE clause of two conditions.
  pub select-both : (xs : List A) → select (λ x. p x && q x) xs ≡ select q (select p xs)
  unfolding select
  select-both [] = refl
  select-both (x ∷ xs) = ground (arith, select-both xs)

  pub select_ext : ((x : A) → p x ≡ q x) → (xs : List A) → select p xs ≡ select q xs
  unfolding select
  select_ext h [] = refl
  select_ext h (x ∷ xs) = ground (arith, h x, select_ext h xs)

module _ {ℓ} {A : Type ℓ} (p q : A → Bool) (f : A → A) where
  -- An UPDATE that does not touch what a WHERE clause reads keeps the count.
  pub count-update :
      ((x : A) → q (f x) ≡ q x) → (xs : List A) → count q (update p f xs) ≡ count q xs
  unfolding count update
  count-update h [] = refl
  count-update h (x ∷ xs) = ground (arith, h x, count-update h xs)

  -- Every row of the key `q` that the update reaches is the updated one.
  pub find_row-update :
      ((x : A) → q (f x) ≡ q x)
      → (xs : List A)
      → find_row q (update p f xs)
        ≡ elim (find_row q xs) [ none ↦ none | some x ↦ some (if p x then f x else x) ]
  unfolding find_row update
  find_row-update h [] = refl
  find_row-update h (x ∷ xs) = ground (arith, h x, find_row-update h xs)

module _ {ℓ κ} {A : Type ℓ} (P : A → Type κ) where
  pub All-update :
      (p : A → Bool) (f : A → A)
      → ((x : A) → P x → P (f x))
      → (xs : List A) → All P xs
      → All P (update p f xs)
  unfolding update
  All-update p f h [] a = tt
  All-update p f h (x ∷ xs) a = (pick (p x), All-update p f h xs a.1)
    where
      pick : (b : Bool) → P (if b then f x else x)
      pick true = h x a.0
      pick false = a.0

  pub All-delete_rows : (p : A → Bool) (xs : List A) → All P xs → All P (delete_rows p xs)
  unfolding delete_rows
  All-delete_rows p [] a = tt
  All-delete_rows p (x ∷ xs) a = elim (Bool-cases (p x)) [
    | inl e ↦ rw e (All-delete_rows p xs a.1)
    | inr e ↦ rw e (a.0, All-delete_rows p xs a.1)
  ]

  pub All-find_row : (p : A → Bool) (xs : List A) {x : A} → All P xs → find_row p xs ≡ some x → P x
  unfolding find_row
  All-find_row p [] a e = cc
  All-find_row p (y ∷ ys) a e = elim (Bool-cases (p y)) [
    | inl t ↦ subst P (ground arith) a.0
    | inr t ↦ All-find_row p ys a.1 (ground arith)
  ]

module _ {ℓ} {A : Type ℓ} (f : A → ℕ) (p : A → Bool) where
  pub total-append : (xs ys : List A) → total f p (xs ++ ys) ≡ total f p xs + total f p ys
  unfolding total
  total-append [] ys = omega arith
  total-append (x ∷ xs) ys = omega (arith, total-append xs ys)

  pub total-delete_rows-le :
      (q : A → Bool) (xs : List A) → total f p (delete_rows q xs) ≤ total f p xs
  unfolding total delete_rows
  total-delete_rows-le q [] = omega arith
  total-delete_rows-le q (x ∷ xs) = ground (arith, total-delete_rows-le q xs)
