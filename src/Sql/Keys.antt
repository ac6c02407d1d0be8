-- ===== src/Sql/Keys.antt =====
-- What stays true of the row that a key finds, when rows are inserted after it and updated.
use sund.Prelude.{
  ◌≡◌, refl, Bool, true, false, List, [], ◌∷◌, ◌++◌, Option, none, some, if◌then◌else◌, arith,
}
use sund.Sql.Statements.{select, find_row, update, delete_rows}
use sund.Sql.Laws.{find_row-append, find_row-update}

-- A row was found, and `P` holds of it.
abbrev pub Holds {ℓ} : {A : Type ℓ} → (A → Type 0) → Option A → Type 0
Holds P none = ⊥
Holds P (some x) = P x

module _ {ℓ} {A : Type ℓ} (P : A → Type 0) where
  Holds-or_else :
      (o rest : Option A) → Holds P o → Holds P (elim o [ none ↦ rest | some x ↦ some x ])
  Holds-or_else none rest h = absurd h
  Holds-or_else (some x) rest h = h

  keep_if : (b : Bool) (x y : A) → P x → (b ≡ true → P y) → P (if b then y else x)
  keep_if true x y h k = k refl
  keep_if false x y h k = h

  Holds-changed :
      (p : A → Bool) (f : A → A)
      → ((x : A) → p x ≡ true → P x → P (f x))
      → (o : Option A) → Holds P o
      → Holds P (elim o [ none ↦ none | some x ↦ some (if p x then f x else x) ])
  Holds-changed p f k none h = absurd h
  Holds-changed p f k (some x) h = keep_if (p x) x (f x) h (λ e. k x e h)

  pub Holds-append :
      (key : A → Bool) (xs ys : List A)
      → Holds P (find_row key xs)
      → Holds P (find_row key (xs ++ ys))
  Holds-append key xs ys h = rw (find_row-append key xs ys) (Holds-or_else _ _ h)

  pub Holds-update :
      (key p : A → Bool) (f : A → A)
      → ((x : A) → key (f x) ≡ key x)
      → ((x : A) → p x ≡ true → P x → P (f x))
      → (xs : List A) → Holds P (find_row key xs)
      → Holds P (find_row key (update p f xs))
  Holds-update key p f same k xs h = rw (find_row-update p key f same xs) (Holds-changed p f k _ h)

module _ {ℓ} {A : Type ℓ} (P Q : A → Type 0) where
  pub Holds-map : ((x : A) → P x → Q x) → (o : Option A) → Holds P o → Holds Q o
  Holds-map h none p = absurd p
  Holds-map h (some x) p = h x p

  -- What an UPDATE makes of the row that the key finds.
  pub Holds-update_to :
      (key p : A → Bool) (f : A → A)
      → ((x : A) → key (f x) ≡ key x)
      → ((x : A) → P x → Q (if p x then f x else x))
      → (xs : List A) → Holds P (find_row key xs)
      → Holds Q (find_row key (update p f xs))
  Holds-update_to key p f same h xs k = rw (find_row-update p key f same xs) (changed _ k)
    where
      changed :
          (o : Option A)
          → Holds P o
          → Holds Q (elim o [ none ↦ none | some x ↦ some (if p x then f x else x) ])
      changed none k = absurd k
      changed (some x) k = h x k

module _ {ℓ} {A : Type ℓ} (key p : A → Bool) (x : A) where
  -- The row that a key finds outlives a DELETE that does not reach it.
  pub find_row-delete_rows :
      (xs : List A)
      → find_row key xs ≡ some x
      → p x ≡ false
      → find_row key (delete_rows p xs) ≡ some x
  unfolding find_row delete_rows
  find_row-delete_rows [] e h = e
  find_row-delete_rows (y ∷ ys) e h = ground (arith, find_row-delete_rows ys)

  pub find_row-select :
      (xs : List A) → find_row key xs ≡ some x → p x ≡ true → find_row key (select p xs) ≡ some x
  unfolding find_row select
  find_row-select [] e h = e
  find_row-select (y ∷ ys) e h = ground (arith, find_row-select ys)
