-- ===== src/Store/Schema/Columns.antt =====
-- internal/store/store.go: what the changes of a catalog do to its tables, columns and indexes.
use sund.Prelude.{
  ◌≡◌, refl, ap, ◌∙◌, inl, inr, Bool, true, false, not, ◌&&◌, ◌||◌, List, [], ◌∷◌, ◌++◌, String,
  ◌==◌, eq_iff, arith, Bool-cases,
}
use sund.Store.Schema.{
  Column, Table, column_in, has_table, has_column, has_index, add_column, without_column,
  remove_column,
}

column_in-append :
    (n : String) (cs ds : List Column) → column_in n (cs ++ ds) ≡ (column_in n cs || column_in n ds)
unfolding column_in
column_in-append n [] ds = refl
column_in-append n (c ∷ cs) ds = ground (arith, column_in-append n cs ds)

column_in-without :
    (n m : String) (cs : List Column)
    → column_in n (without_column m cs) ≡ (column_in n cs && not (n == m))
unfolding column_in without_column
column_in-without n m [] = refl
column_in-without n m (c ∷ cs) =
    ground (arith, column_in-without n m cs, eq_iff c.0 m, eq_iff c.0 n, eq_iff n m)

pub has_table-append :
    (t : String) (xs ys : List Table) → has_table t (xs ++ ys) ≡ (has_table t xs || has_table t ys)
unfolding has_table
has_table-append t [] ys = refl
has_table-append t (x ∷ xs) ys = ground (arith, has_table-append t xs ys)

pub has_column-append :
    (t n : String) (xs ys : List Table)
    → has_column t n (xs ++ ys) ≡ (has_column t n xs || has_column t n ys)
unfolding has_column
has_column-append t n [] ys = refl
has_column-append t n (x ∷ xs) ys = ground (arith, has_column-append t n xs ys)

pub has_index-append :
    (i : String) (xs ys : List String) → has_index i (xs ++ ys) ≡ (has_index i xs || has_index i ys)
unfolding has_index
has_index-append i [] ys = refl
has_index-append i (x ∷ xs) ys = ground (arith, has_index-append i xs ys)

pub has_table-add :
    (t u : String) (c : Column) (xs : List Table) → has_table t (add_column u c xs) ≡ has_table t xs
unfolding has_table add_column
has_table-add t u c [] = refl
has_table-add t u c (x ∷ xs) = ground (arith, has_table-add t u c xs)

pub has_table-remove :
    (t u n : String) (xs : List Table) → has_table t (remove_column u n xs) ≡ has_table t xs
unfolding has_table remove_column
has_table-remove t u n [] = refl
has_table-remove t u n (x ∷ xs) = ground (arith, has_table-remove t u n xs)

pub has_column-add :
    (t n u : String) (c : Column) (xs : List Table)
    → has_column t n (add_column u c xs)
      ≡ (has_column t n xs || has_table t xs && t == u && c.0 == n)
unfolding has_column has_table add_column column_in
has_column-add t n u c [] = refl
has_column-add t n u c (x ∷ xs) = elim (Bool-cases (x.name == u)) [
  | inl e ↦ rw e (
      ap (λ b. x.name == t && b || has_column t n (add_column u c xs))
        (column_in-append n x.columns (c ∷ []))
      ∙ ap (λ b. x.name == t && (column_in n x.columns || (c.0 == n || false)) || b)
          (has_column-add t n u c xs)
      ∙ here (x.name == t) (column_in n x.columns) (c.0 == n) (has_column t n xs) (has_table t xs)
          (t == u) (ground (arith, eq_iff x.name u, eq_iff x.name t, eq_iff t u)))
  | inr e ↦ rw e (
      ap (λ b. x.name == t && column_in n x.columns || b) (has_column-add t n u c xs)
      ∙ there (x.name == t) (x.name == t && column_in n x.columns) (c.0 == n) (has_column t n xs)
          (has_table t xs) (t == u) (ground (arith, eq_iff x.name u, eq_iff x.name t, eq_iff t u)))
]
  where
    here :
        (p a k r q e : Bool)
        → (p ≡ true → e ≡ true)
        → (p && (a || (k || false)) || (r || q && e && k)) ≡ (p && a || r || (p || q) && e && k)
    here p a k r q e h = ground (arith, h)

    there :
        (p a k r q e : Bool)
        → (p ≡ true → e ≡ false)
        → (a || (r || q && e && k)) ≡ (a || r || (p || q) && e && k)
    there p a k r q e h = ground (arith, h)

pub has_column-remove :
    (t n u m : String) (xs : List Table)
    → has_column t n (remove_column u m xs) ≡ (has_column t n xs && not (t == u && n == m))
unfolding has_column remove_column
has_column-remove t n u m [] = refl
has_column-remove t n u m (x ∷ xs) = elim (Bool-cases (x.name == u)) [
  | inl e ↦ rw e (
      ap (λ b. x.name == t && b || has_column t n (remove_column u m xs))
        (column_in-without n m x.columns)
      ∙ ap (λ b. x.name == t && (column_in n x.columns && not (n == m)) || b)
          (has_column-remove t n u m xs)
      ∙ here (x.name == t) (column_in n x.columns) (n == m) (has_column t n xs) (t == u)
          (ground (arith, eq_iff x.name u, eq_iff x.name t, eq_iff t u)))
  | inr e ↦ rw e (
      ap (λ b. x.name == t && column_in n x.columns || b) (has_column-remove t n u m xs)
      ∙ there (x.name == t) (column_in n x.columns) (n == m) (has_column t n xs) (t == u)
          (ground (arith, eq_iff x.name u, eq_iff x.name t, eq_iff t u)))
]
  where
    here :
        (p a k r e : Bool)
        → (p ≡ true → e ≡ true)
        → (p && (a && not k) || (r && not (e && k))) ≡ ((p && a || r) && not (e && k))
    here p a k r e h = ground (arith, h)

    there :
        (p a k r e : Bool)
        → (p ≡ true → e ≡ false)
        → (p && a || (r && not (e && k))) ≡ ((p && a || r) && not (e && k))
    there p a k r e h = ground (arith, h)
