-- ===== src/Sql/Unique.antt =====
-- A PRIMARY KEY or UNIQUE column: no two rows of the table have the same text in it.
use sund.Prelude.{
  ◌+◌, ◌≤◌, ◌≡◌, refl, ap, subst, inl, inr, Bool, true, false, ◌&&◌, ◌||◌, List, [], ◌∷◌, ◌++◌,
  some, String, ◌==◌, if◌then◌else◌, arith, Bool-cases, text_cases,
}
use sund.Sql.Statements.{find_row, update, delete_rows, count, has_row}
use sund.Sql.Laws.{count-append, count-update, count-has_row}
use sund.Sql.Keys.{Holds}

module _ {ℓ} {A : Type ℓ} where
  abbrev pub IsUnique : (A → String) → List A → Type 0
  IsUnique key xs = (k : String) → count (λ x. key x == k) xs ≤ 1

  pub count-delete_rows-le :
      (p q : A → Bool) (xs : List A) → count p (delete_rows q xs) ≤ count p xs
  unfolding count delete_rows
  count-delete_rows-le p q [] = omega arith
  count-delete_rows-le p q (x ∷ xs) = ground (arith, count-delete_rows-le p q xs)

  pub has_row-or :
      (p q : A → Bool) (xs : List A)
      → has_row (λ x. p x || q x) xs ≡ false
      → (has_row p xs ≡ false) × (has_row q xs ≡ false)
  unfolding has_row
  has_row-or p q [] h = (refl, refl)
  has_row-or p q (x ∷ xs) h = ground (arith, has_row-or p q xs)

module _ {ℓ} {A : Type ℓ} (key : A → String) where
  -- An INSERT that the constraint lets through.
  pub IsUnique-insert :
      (xs : List A) (y : A)
      → IsUnique key xs
      → has_row (λ x. key x == key y) xs ≡ false
      → IsUnique key (xs ++ y ∷ [])
  unfolding count
  IsUnique-insert xs y u new k = elim (text_cases (key y) k) [
    | inl (e, t) ↦
        rw (count-append (λ x. key x == k) xs (y ∷ []), t)
          (subst (λ j. count (λ x. key x == j) xs + 1 ≤ 1) e
            (omega (arith, count-has_row (λ x. key x == key y) xs new)))
    | inr (_, t) ↦ rw (count-append (λ x. key x == k) xs (y ∷ []), t) (omega (arith, u k))
  ]

  pub IsUnique-update :
      (p : A → Bool) (f : A → A)
      → ((x : A) → key (f x) ≡ key x)
      → (xs : List A) → IsUnique key xs
      → IsUnique key (update p f xs)
  IsUnique-update p f same xs u k =
      rw (count-update p (λ x. key x == k) f (λ x. ap (λ j. j == k) (same x)) xs) (u k)

  pub IsUnique-delete_rows :
      (q : A → Bool) (xs : List A) → IsUnique key xs → IsUnique key (delete_rows q xs)
  IsUnique-delete_rows q xs u k = omega (arith, u k, count-delete_rows-le (λ x. key x == k) q xs)

-- Conditions `q` that only rows with the key `p` meet, where one row at most has the key.
module _ {ℓ} {A : Type ℓ} (p q : A → Bool) (sub : (x : A) → q x ≡ true → p x ≡ true) where
  pub count_le : (xs : List A) → count q xs ≤ count p xs
  unfolding count
  count_le [] = omega arith
  count_le (x ∷ xs) = ground (arith, sub x, count_le xs)

  -- The row of the key is the one that meets the condition.
  pub found_row :
      (xs : List A) → count p xs ≤ 1 → count q xs ≡ 1 → Holds (λ x. q x ≡ true) (find_row p xs)
  unfolding count find_row
  found_row [] u n = absurd (omega (arith, n))
  found_row (x ∷ xs) u n = elim (Bool-cases (p x)) [
    | inl e ↦ rw e (ground (arith, count_le xs))
    | inr e ↦ rw e (found_row xs (ground arith) (ground (arith, sub x)))
  ]

  -- If the row of the key fails the condition, no row meets it.
  pub count_none :
      (xs : List A) → count p xs ≤ 1 → Holds (λ x. q x ≡ false) (find_row p xs) → count q xs ≡ 0
  unfolding count find_row
  count_none [] u h = refl
  count_none (x ∷ xs) u h = elim (Bool-cases (p x)) [
    | inl e ↦ let fails : q x ≡ false = rw e at h in rw fails (ground (arith, count_le xs))
    | inr e ↦
        let rest : Holds (λ y. q y ≡ false) (find_row p xs) = rw e at h in
        ground (arith, sub x, count_none xs (ground arith) rest)
  ]

module _ {ℓ} {A : Type ℓ} where
  -- An UPDATE under which each row counted before is counted after.
  pub count_le-update :
      (q r p : A → Bool) (f : A → A)
      → ((x : A) → q x ≡ true → r (if p x then f x else x) ≡ true)
      → (xs : List A) → count q xs ≤ count r (update p f xs)
  unfolding count update
  count_le-update q r p f h [] = omega arith
  count_le-update q r p f h (x ∷ xs) =
      let here = h x in
      let rest = count_le-update q r p f h xs in
      elim (Bool-cases (q x)) [
        | inl e ↦ rw (e, here e) (omega (arith, rest))
        | inr e ↦ rw e (ground (arith, rest))
      ]

  pub update-count_le :
      (q r p : A → Bool) (f : A → A)
      → ((x : A) → r (if p x then f x else x) ≡ true → q x ≡ true)
      → (xs : List A) → count r (update p f xs) ≤ count q xs
  unfolding count update
  update-count_le q r p f h [] = omega arith
  update-count_le q r p f h (x ∷ xs) =
      let here = h x in
      let rest = update-count_le q r p f h xs in
      elim (Bool-cases (r (if p x then f x else x))) [
        | inl e ↦ rw (e, here e) (omega (arith, rest))
        | inr e ↦ rw e (ground (arith, rest))
      ]

  -- Rows are counted among those with the key and those without.
  pub count_split :
      (p q r : A → Bool)
      → ((x : A) → p x ≡ false → q x ≡ true → r x ≡ true)
      → (xs : List A) → count q xs ≤ count (λ x. p x && q x) xs + count r xs
  unfolding count
  count_split p q r h [] = omega arith
  count_split p q r h (x ∷ xs) = ground (arith, h x, count_split p q r h xs)

  pub find_row-count :
      (q : A → Bool) (xs : List A) (x : A) → find_row q xs ≡ some x → 1 ≤ count q xs
  unfolding find_row count
  find_row-count q [] x e = cc
  find_row-count q (y ∷ ys) x e = ground (arith, find_row-count q ys x)

  -- A row found by a condition that only rows with the key meet is the row of the key.
  pub find_row_unique :
      (p q : A → Bool)
      → ((x : A) → q x ≡ true → p x ≡ true)
      → (xs : List A) (x : A) → count p xs ≤ 1
      → find_row q xs ≡ some x
      → find_row p xs ≡ some x
  unfolding find_row count
  find_row_unique p q sub [] x u e = cc
  find_row_unique p q sub (y ∷ ys) x u e =
      ground
        (arith, sub y, find_row_unique p q sub ys x, find_row-count q ys x, count_le p q sub ys)

  -- A found row that meets another condition is counted.
  pub count_pos :
      (p q : A → Bool) (xs : List A) (x : A) → find_row p xs ≡ some x → q x ≡ true → 1 ≤ count q xs
  unfolding find_row count
  count_pos p q [] x e t = cc
  count_pos p q (y ∷ ys) x e t = ground (arith, count_pos p q ys x)

  -- All the rows but the found one are one fewer.
  pub count_others :
      (p q r : A → Bool)
      → ((x : A) → r x ≡ true → q x ≡ true)
      → ((x : A) → r x ≡ true → p x ≡ false)
      → (xs : List A) (x : A) → find_row p xs ≡ some x
      → q x ≡ true
      → count r xs + 1 ≤ count q xs
  unfolding find_row count
  count_others p q r sub out [] x e t = cc
  count_others p q r sub out (y ∷ ys) x e t =
      ground (arith, sub y, out y, count_le q r sub ys, count_others p q r sub out ys x)
