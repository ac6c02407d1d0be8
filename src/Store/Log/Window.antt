-- ===== src/Store/Log/Window.antt =====
-- The window of the numbers that AppendStatement keeps.
use sund.Prelude.{
  ℕ, suc, ◌+◌, ◌-◌, ◌≤◌, ◌≡◌, ◌≢◌, refl, sym, ap, ◌∙◌, subst, Bool, false, List, [], ◌∷◌, ◌++◌,
  String, ◌==◌, arith, eq_iff, leb, Bool-cases, inl, inr, length, All,
}
use sund.Sql.{select, delete_rows}
use sund.Sql.Laws.{select-append, select-append_other, select-delete_both, select-delete_rows}
use sund.Sql.Ascending.{Ascending, Ascending-delete_rows, Ascending-insert, Ascending-length}
use sund.Store.Tables.{Db, Statement}
use sund.Store.Statements.{
  log_statement, last_seq, of_account, is_trimmed, max_statements_per_account,
}

-- The log of an account, as it stands in the table.
unfoldable pub log_of : String → List Statement → List Statement
log_of account ss = select (of_account account) ss

-- The log stands in the order of its numbers, and all of them are among the last 256.
abbrev pub IsLogged : String → List Statement → Type 0
IsLogged account ss =
    Ascending (λ s. s.seq) (last_seq account ss - max_statements_per_account) (log_of account ss)

module _ (account : String) where
  pub last_seq-log :
      (ss : List Statement) → last_seq account (log_of account ss) ≡ last_seq account ss
  unfolding last_seq log_of select
  last_seq-log [] = refl
  last_seq-log (s ∷ ss) = ground (arith, last_seq-log ss)

  pub last_seq-bound :
      (hi : ℕ) (ss : List Statement)
      → last_seq account ss ≤ hi
      → All (λ s. s.seq ≤ hi) (log_of account ss)
  unfolding last_seq log_of select
  last_seq-bound hi [] h = tt
  last_seq-bound hi (s ∷ ss) h = elim (Bool-cases (of_account account s)) [
    | inl e ↦ rw e (ground arith, last_seq-bound hi ss (ground arith))
    | inr e ↦ rw e (last_seq-bound hi ss (ground arith))
  ]

  -- What the trim leaves is numbered within the window.
  pub Ascending-trimmed :
      (k n lo : ℕ) (xs : List Statement)
      → Ascending (λ s. s.seq) lo xs
      → Ascending (λ s. s.seq) (n - k) (delete_rows (λ s. leb (s.seq + k) n) xs)
  unfolding delete_rows
  Ascending-trimmed k n lo [] h = tt
  Ascending-trimmed k n lo (x ∷ xs) h = elim (Bool-cases (leb (x.seq + k) n)) [
    | inl e ↦ rw e (Ascending-trimmed k n x.seq xs h.1)
    | inr e ↦
        rw e
          (ground arith, Ascending-delete_rows (λ s. s.seq) (λ s. leb (s.seq + k) n) x.seq xs h.1)
  ]

  pub last_seq-trimmed :
      (p : Statement → Bool) (xs : List Statement) (s : Statement)
      → s.account_id ≡ account
      → p s ≡ false
      → last_seq account xs ≤ s.seq
      → last_seq account (delete_rows p (xs ++ s ∷ [])) ≡ s.seq
  unfolding last_seq delete_rows
  last_seq-trimmed p [] s e h k = ground (arith, eq_iff s.account_id account)
  last_seq-trimmed p (x ∷ xs) s e h k = ground (arith, last_seq-trimmed p xs s e h)

  -- An account's log after an insertion: the statement at its end, and what is out of the window
  -- gone.
  pub log_of-own :
      (s : Statement) (ss : List Statement)
      → s.account_id ≡ account
      → log_of account (delete_rows (is_trimmed account s.seq) (ss ++ s ∷ []))
        ≡ delete_rows
            (λ t. leb (t.seq + max_statements_per_account) s.seq)
            (log_of account ss ++ s ∷ [])
  unfolding log_of select
  log_of-own s ss e =
      select-delete_both (of_account account) _ (ss ++ s ∷ [])
      ∙ ap (delete_rows _) (
          ground
            (arith, eq_iff s.account_id account, select-append (of_account account) ss (s ∷ [])))

  pub IsLogged-own :
      (s : Statement) (ss : List Statement)
      → s.account_id ≡ account
      → s.seq ≡ suc (last_seq account ss)
      → IsLogged account ss
      → IsLogged account (delete_rows (is_trimmed account s.seq) (ss ++ s ∷ []))
  IsLogged-own s ss e f h = rw (log_of-own s ss e) (
      rw (last_seq-trimmed (is_trimmed account s.seq) ss s e (ground arith) (omega arith)) (
        Ascending-trimmed max_statements_per_account s.seq _ _ (
          Ascending-insert (λ t. t.seq) _ (last_seq account ss) (log_of account ss) s h
            (last_seq-bound (last_seq account ss) ss (omega arith)) (omega arith) (omega arith))))

  -- The log of another account is left alone.
  pub log_of-other :
      (s : Statement) (ss : List Statement)
      → s.account_id ≢ account
      → log_of account (delete_rows (is_trimmed s.account_id s.seq) (ss ++ s ∷ []))
        ≡ log_of account ss
  unfolding log_of
  log_of-other s ss e =
      select-delete_rows (of_account account) (is_trimmed s.account_id s.seq)
        (λ t h. ground (arith, eq_iff t.account_id account, eq_iff t.account_id s.account_id, e))
        (ss ++ s ∷ [])
      ∙ select-append_other (of_account account) ss s
          (ground (arith, eq_iff s.account_id account, e))

  pub IsLogged-other :
      (ss ss' : List Statement)
      → log_of account ss' ≡ log_of account ss
      → IsLogged account ss
      → IsLogged account ss'
  IsLogged-other ss ss' e h =
      subst (λ xs. Ascending (λ s. s.seq) (last_seq account ss' - max_statements_per_account) xs)
        (sym e)
        (subst (λ n. Ascending (λ s. s.seq) (n - max_statements_per_account) (log_of account ss))
          (sym (last_seq-log ss) ∙ ap (last_seq account) (sym e) ∙ last_seq-log ss') h)

  pub log_statement-IsLogged :
      (s : Statement) (db : Db)
      → s.seq ≡ suc (last_seq s.account_id db.statements)
      → IsLogged account db.statements
      → IsLogged account (log_statement s db).statements
  unfolding log_statement
  log_statement-IsLogged s db f h = elim (Bool-cases (s.account_id == account)) [
    | inl e ↦ by_account (ground (arith, eq_iff s.account_id account))
    | inr e ↦
        IsLogged-other db.statements _
          (log_of-other s db.statements (ground (arith, eq_iff s.account_id account))) h
  ]
    where
      by_account :
          s.account_id ≡ account
          → IsLogged account (delete_rows (is_trimmed s.account_id s.seq) (db.statements ++ s ∷ []))
      by_account e =
          subst (λ a. IsLogged account (delete_rows (is_trimmed a s.seq) (db.statements ++ s ∷ [])))
            (sym e)
            (IsLogged-own s db.statements e (f ∙ ap (λ a. suc (last_seq a db.statements)) e) h)

  -- At most 256 statements are kept for an account.
  pub IsLogged-length :
      (ss : List Statement)
      → IsLogged account ss
      → length (log_of account ss) ≤ max_statements_per_account
  IsLogged-length ss h = omega (
    arith,
    Ascending-length (λ s. s.seq) _ (last_seq account ss) (log_of account ss) h
        (last_seq-bound (last_seq account ss) ss (omega arith)) (omega arith),
  )
