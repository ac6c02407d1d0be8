-- ===== src/Sql/Ascending.antt =====
-- Tables whose rows stand in the order of a number that grows with each INSERT.
use sund.Prelude.{
  ℕ, ◌+◌, ◌≤◌, ◌<◌, ◌≡◌, refl, Bool, List, [], ◌∷◌, ◌++◌, leb, ltb, length, All, arith, Bool-cases,
  inl, inr,
}
use sund.Sql.Statements.{select, delete_rows, insert_by, order_by}

module _ {ℓ} {A : Type ℓ} (f : A → ℕ) where
  -- The numbers grow along the list, from more than `lo`.
  abbrev pub Ascending : ℕ → List A → Type 0
  Ascending lo [] = Unit
  Ascending lo (x ∷ xs) = (lo < f x) × Ascending (f x) xs

  pub Ascending-weaken : (lo lo' : ℕ) (xs : List A) → lo' ≤ lo → Ascending lo xs → Ascending lo' xs
  Ascending-weaken lo lo' [] h a = tt
  Ascending-weaken lo lo' (x ∷ xs) h a = (omega arith, a.1)

  pub Ascending-delete_rows :
      (p : A → Bool) (lo : ℕ) (xs : List A) → Ascending lo xs → Ascending lo (delete_rows p xs)
  unfolding delete_rows
  Ascending-delete_rows p lo [] a = tt
  Ascending-delete_rows p lo (x ∷ xs) a = elim (Bool-cases (p x)) [
    | inl e ↦ rw e (
        Ascending-weaken (f x) lo (delete_rows p xs) (omega arith)
          (Ascending-delete_rows p (f x) xs a.1))
    | inr e ↦ rw e (a.0, Ascending-delete_rows p (f x) xs a.1)
  ]

  pub Ascending-select :
      (p : A → Bool) (lo : ℕ) (xs : List A) → Ascending lo xs → Ascending lo (select p xs)
  unfolding select
  Ascending-select p lo [] a = tt
  Ascending-select p lo (x ∷ xs) a = elim (Bool-cases (p x)) [
    | inl e ↦ rw e (a.0, Ascending-select p (f x) xs a.1)
    | inr e ↦
        rw e
          (Ascending-weaken (f x) lo (select p xs) (omega arith) (Ascending-select p (f x) xs a.1))
  ]

  -- The rows above a number.
  pub Ascending-above :
      (n lo : ℕ) (xs : List A) → Ascending lo xs → Ascending n (select (λ x. ltb n (f x)) xs)
  unfolding select
  Ascending-above n lo [] a = tt
  Ascending-above n lo (x ∷ xs) a = elim (Bool-cases (ltb n (f x))) [
    | inl e ↦ rw e (ground arith, Ascending-select (λ y. ltb n (f y)) (f x) xs a.1)
    | inr e ↦ rw e (Ascending-above n (f x) xs a.1)
  ]

  pub Ascending-insert :
      (lo hi : ℕ) (xs : List A) (y : A)
      → Ascending lo xs
      → All (λ x. f x ≤ hi) xs
      → lo < f y
      → hi < f y
      → Ascending lo (xs ++ y ∷ [])
  Ascending-insert lo hi [] y a h l k = (l, tt)
  Ascending-insert lo hi (x ∷ xs) y a h l k =
      (a.0, Ascending-insert (f x) hi xs y a.1 h.1 (omega arith) k)

  insert_first :
      (x : A) (xs : List A) → Ascending (f x) xs → insert_by (λ y z. leb (f y) (f z)) x xs ≡ x ∷ xs
  unfolding insert_by
  insert_first x [] a = refl
  insert_first x (y ∷ ys) a = ground arith

  -- ORDER BY the number leaves such a table as it is.
  pub order_by-Ascending :
      (lo : ℕ) (xs : List A) → Ascending lo xs → order_by (λ y z. leb (f y) (f z)) xs ≡ xs
  unfolding order_by
  order_by-Ascending lo [] a = refl
  order_by-Ascending lo (x ∷ xs) a = rw (order_by-Ascending (f x) xs a.1) (insert_first x xs a.1)

  -- There are no more rows than numbers.
  pub Ascending-length :
      (lo hi : ℕ) (xs : List A)
      → Ascending lo xs
      → All (λ x. f x ≤ hi) xs
      → lo ≤ hi
      → lo + length xs ≤ hi
  Ascending-length lo hi [] a h l = omega arith
  Ascending-length lo hi (x ∷ xs) a h l =
      omega (arith, a.0, h.0, Ascending-length (f x) hi xs a.1 h.1 h.0)

module _ {ℓ κ} {A : Type ℓ} (P : A → Type κ) where
  pub All-select : (p : A → Bool) (xs : List A) → All P xs → All P (select p xs)
  unfolding select
  All-select p [] a = tt
  All-select p (x ∷ xs) a = elim (Bool-cases (p x)) [
    | inl e ↦ rw e (a.0, All-select p xs a.1)
    | inr e ↦ rw e (All-select p xs a.1)
  ]

  pub All-map {κ'} : (Q : A → Type κ') → ((x : A) → P x → Q x) → (xs : List A) → All P xs → All Q xs
  All-map Q h [] a = tt
  All-map Q h (x ∷ xs) a = (h x a.0, All-map Q h xs a.1)
