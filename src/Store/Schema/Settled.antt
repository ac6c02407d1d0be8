-- ===== src/Store/Schema/Settled.antt =====
-- internal/store/store.go: a migration leaves nothing for the next one to do.
use sund.Prelude.{
  ◌≡◌, refl, inl, inr, Bool, true, false, not, ◌&&◌, some, List, [], ◌∷◌, ◌++◌, String, ◌==◌,
  eq_iff, eq_refl, arith, Option-cases,
}
use sund.Store.Schema.{
  Catalog, has_table, has_column, has_index, Change, creates_table, creates_index, ensures_column,
  drops_column, create_table, create_index, ensure_column, drop_column, change, change_all, schema,
  later_changes, migrate,
}
use sund.Store.Schema.Columns.{
  has_table-append, has_column-append, has_index-append, has_table-add, has_table-remove,
  has_column-add, has_column-remove,
}

-- The catalog is as the change would leave it.
settled : Change → Catalog → Bool
settled (creates_table table columns) c = has_table table c.tables
settled (creates_index index table column) c = has_index index c.indexes
settled (ensures_column table column ddl) c = has_column table column c.tables
settled (drops_column table column) c = not (has_column table column c.tables)

-- The later of two changes does not undo the earlier one.
keeps : Change → Change → Bool
keeps (drops_column t n) (ensures_column u m ddl) = not (t == u && n == m)
keeps (drops_column t n) _ = true
keeps _ (drops_column t n) = false
keeps _ _ = true

change-settled : (x : Change) (c d : Catalog) → change x c ≡ some d → settled x d ≡ true
unfolding change settled create_table create_index ensure_column drop_column has_table has_index
change-settled (creates_table t cs) c d e =
    ground (arith, has_table-append t c.tables (record { name = t; columns = cs } ∷ []), eq_refl t)
change-settled (creates_index i t n) c d e =
    ground (arith, has_index-append i c.indexes (i ∷ []), eq_refl i)
change-settled (ensures_column t n ddl) c d e =
    ground (arith, has_column-add t n t (n, ddl) c.tables, eq_refl t, eq_refl n)
change-settled (drops_column t n) c d e =
    ground (arith, has_column-remove t n t n c.tables, eq_refl t, eq_refl n)

-- A change of what is settled does nothing.
settled-change : (x : Change) (c : Catalog) → settled x c ≡ true → change x c ≡ some c
unfolding change settled create_table create_index ensure_column drop_column
settled-change (creates_table t cs) c h = rw h refl
settled-change (creates_index i t n) c h = rw h refl
settled-change (ensures_column t n ddl) c h = rw h refl
settled-change (drops_column t n) c h = ground (arith, h)

module _ (c d : Catalog) where
  keep-table :
      (x : Change) (t : String)
      → change x c ≡ some d
      → has_table t c.tables ≡ true
      → has_table t d.tables ≡ true
  unfolding change create_table create_index ensure_column drop_column
  keep-table (creates_table u cs) t e h =
      ground (arith, has_table-append t c.tables (record { name = u; columns = cs } ∷ []))
  keep-table (creates_index i u n) t e h = ground (arith, h)
  keep-table (ensures_column u n ddl) t e h = ground (arith, has_table-add t u (n, ddl) c.tables)
  keep-table (drops_column u n) t e h = ground (arith, has_table-remove t u n c.tables)

  keep-index :
      (x : Change) (i : String)
      → change x c ≡ some d
      → has_index i c.indexes ≡ true
      → has_index i d.indexes ≡ true
  unfolding change create_table create_index ensure_column drop_column
  keep-index (creates_table u cs) i e h = ground (arith, h)
  keep-index (creates_index j u n) i e h = ground (arith, has_index-append i c.indexes (j ∷ []))
  keep-index (ensures_column u n ddl) i e h = ground (arith, h)
  keep-index (drops_column u n) i e h = ground (arith, h)

  keep-column :
      (x : Change) (t n ddl : String)
      → change x c ≡ some d
      → keeps x (ensures_column t n ddl) ≡ true
      → has_column t n c.tables ≡ true
      → has_column t n d.tables ≡ true
  unfolding change create_table create_index ensure_column drop_column keeps
  keep-column (creates_table u cs) t n ddl e k h =
      ground (arith, has_column-append t n c.tables (record { name = u; columns = cs } ∷ []))
  keep-column (creates_index i u m) t n ddl e k h = ground (arith, h)
  keep-column (ensures_column u m ddl') t n ddl e k h =
      ground (arith, has_column-add t n u (m, ddl') c.tables)
  keep-column (drops_column u m) t n ddl e k h =
      ground
        (arith, has_column-remove t n u m c.tables, eq_iff u t, eq_iff t u, eq_iff m n, eq_iff n m)

  keep-absent :
      (x : Change) (t n : String)
      → change x c ≡ some d
      → keeps x (drops_column t n) ≡ true
      → has_column t n c.tables ≡ false
      → has_column t n d.tables ≡ false
  unfolding change drop_column keeps
  keep-absent (creates_table u cs) t n e k h = absurd (cc k)
  keep-absent (creates_index i u m) t n e k h = absurd (cc k)
  keep-absent (ensures_column u m ddl) t n e k h = absurd (cc k)
  keep-absent (drops_column u m) t n e k h = ground (arith, has_column-remove t n u m c.tables)

  -- What is settled stays settled by a change that keeps it.
  keep-settled :
      (x y : Change)
      → change x c ≡ some d
      → keeps x y ≡ true
      → settled y c ≡ true
      → settled y d ≡ true
  unfolding settled
  keep-settled x (creates_table t cs) e k h = keep-table x t e h
  keep-settled x (creates_index i t n) e k h = keep-index x i e h
  keep-settled x (ensures_column t n ddl) e k h = keep-column x t n ddl e k h
  keep-settled x (drops_column t n) e k h = ground (arith, keep-absent x t n e k, h)

-- Every later change of a list keeps the earlier ones.
abbrev keeps_all : Change → List Change → Bool
keeps_all y [] = true
keeps_all y (x ∷ xs) = keeps x y && keeps_all y xs

abbrev ordered : List Change → Bool
ordered [] = true
ordered (x ∷ xs) = keeps_all x xs && ordered xs

all_settled : List Change → Catalog → Bool
all_settled [] c = true
all_settled (x ∷ xs) c = settled x c && all_settled xs c

change_all-keep :
    (xs : List Change) (y : Change) (c d : Catalog)
    → change_all xs c ≡ some d
    → keeps_all y xs ≡ true
    → settled y c ≡ true
    → settled y d ≡ true
unfolding change_all
change_all-keep [] y c d e k h = ground (arith, h)
change_all-keep (x ∷ xs) y c d e k h = elim (Option-cases (change x c)) [
  | inl p ↦ absurd (ground arith)
  | inr (m, p) ↦
      change_all-keep xs y m d (ground arith) (ground arith)
        (keep-settled c m x y p (ground arith) h)
]

change_all-settled :
    (xs : List Change) (c d : Catalog)
    → change_all xs c ≡ some d
    → ordered xs ≡ true
    → all_settled xs d ≡ true
unfolding change_all all_settled
change_all-settled [] c d e o = refl
change_all-settled (x ∷ xs) c d e o = elim (Option-cases (change x c)) [
  | inl p ↦ absurd (ground arith)
  | inr (m, p) ↦ ground (
    arith,
    change_all-keep xs x m d (ground arith) (ground arith) (change-settled x c m p),
    change_all-settled xs m d (ground arith) (ground arith),
  )
]

settled-change_all :
    (xs : List Change) (c : Catalog) → all_settled xs c ≡ true → change_all xs c ≡ some c
unfolding change_all all_settled
settled-change_all [] c h = refl
settled-change_all (x ∷ xs) c h =
    ground (arith, settled-change x c (ground arith), settled-change_all xs c (ground arith))

-- A database that was migrated is left as it is by the next migration, whatever tables, columns and
-- indexes it had before.
pub migrate-migrate : (c d : Catalog) → migrate c ≡ some d → migrate d ≡ some d
unfolding migrate keeps
migrate-migrate c d e =
    settled-change_all (schema ++ later_changes) d
      (change_all-settled (schema ++ later_changes) c d e in_order)
  where
    in_order : ordered (schema ++ later_changes) ≡ true
    in_order = refl
