-- ===== src/Store/Log.antt =====
-- The statement log of an account: AppendStatement and ListStatements.
mod Entries
mod Window
pub use Window.{IsLogged}
unfoldable pub use Window.{log_of}
use Prim.Native.Nat.{max}
use sund.Prelude.{
  ℕ, suc, ◌+◌, ◌-◌, ◌≤◌, ◌<◌, ◌≡◌, ◌≢◌, refl, sym, ap, ◌∙◌, subst, Bool, true, false, some, none,
  Option, List, [], ◌∷◌, ◌++◌, String, ◌==◌, Bytes, ℤ, arith, eq_iff, eq_refl, leb, ltb, not,
  Bool-cases, inl, inr, length, All, if◌then◌else◌,
}
use sund.Sql.{select, delete_rows, order_by}
use sund.Sql.Laws.{
  select-append, select-append_other, select-delete_both, select-both, select-delete_rows,
}
use sund.Sql.Ascending.{
  Ascending, Ascending-delete_rows, Ascending-insert, Ascending-select, Ascending-above,
  order_by-Ascending, Ascending-length,
}
use sund.Store.Tables.{Db, Statement, Result, ok, format, empty_db}
use sund.Store.Statements.{
  append_statement, log_statement, last_seq, of_account, is_trimmed, max_statements_per_account,
  list_statements,
}
use sund.Store.Shapes.{append_statement_commits}
use sund.Store.Log.Entries.{Entry, silent, logs, execute-Entry, next_number}
use sund.Store.Commands.{Command, execute, run}
use sund.Store.Log.Window.{
  last_seq-log, last_seq-bound, Ascending-trimmed, last_seq-trimmed, log_of-own, IsLogged-own,
  log_of-other, IsLogged-other, log_statement-IsLogged, IsLogged-length,
}

module _ (sha256 : Bytes → Bytes) (account : String) where
  execute-IsLogged :
      (c : Command) (db : Db)
      → IsLogged account db.statements
      → IsLogged account (execute sha256 c db).statements
  execute-IsLogged c db h = by_entry (execute-Entry sha256 c db)
    where
      by_entry : Entry db (execute sha256 c db) → IsLogged account (execute sha256 c db).statements
      by_entry (silent e) = subst (IsLogged account) (sym e) h
      by_entry (logs s e f) =
          subst (λ d. IsLogged account d.statements) (sym e)
            (log_statement-IsLogged account s db f h)

  run-IsLogged :
      (cs : List Command) (db : Db)
      → IsLogged account db.statements
      → IsLogged account (run sha256 cs db).statements
  unfolding run
  run-IsLogged [] db h = h
  run-IsLogged (c ∷ cs) db h = run-IsLogged cs _ (execute-IsLogged c db h)

  list_statements-log :
      (db : Db) (since : ℕ)
      → IsLogged account db.statements
      → list_statements db account since
        ≡ select (λ s. ltb since s.seq) (log_of account db.statements)
  unfolding list_statements log_of
  list_statements-log db since h =
      ap (order_by (λ s t. leb s.seq t.seq))
        (select-both (of_account account) (λ s. ltb since s.seq) db.statements)
      ∙ order_by-Ascending (λ s. s.seq) _ _
          (Ascending-select (λ s. s.seq) (λ s. ltb since s.seq) _ _ h)

  -- After any history of an empty database, the log of an account holds at most 256 statements,
  -- and ListStatements returns those above `since`, in the order of their numbers, each number
  -- once.
  pub run-log_bounded :
      (cs : List Command) (since : ℕ)
      → (length (log_of account (run sha256 cs empty_db).statements) ≤ max_statements_per_account)
        × Ascending (λ s. s.seq) since (list_statements (run sha256 cs empty_db) account since)
        × (list_statements (run sha256 cs empty_db) account since
            ≡ select (λ s. ltb since s.seq) (log_of account (run sha256 cs empty_db).statements))
  unfolding log_of select
  run-log_bounded cs since =
      let logged = run-IsLogged cs empty_db tt in
      let listed = list_statements-log (run sha256 cs empty_db) since logged in
      (
        IsLogged-length account _ logged,
        subst (Ascending (λ s. s.seq) since) (sym listed)
            (Ascending-above (λ s. s.seq) since _ _ logged),
        listed,
      )

-- AppendStatement puts its statement at the end of the account's log, numbered one above the
-- largest number there, drops what is 256 or more behind it, and leaves every other log alone.
pub append_statement-logs :
    (account : String) (blob : Bytes) (now : ℕ) (db : Db) {db' : Db} {s : Statement}
    → append_statement account blob now db ≡ ok (s, db')
    → (s.seq ≡ suc (last_seq account db.statements))
      × (log_of account db'.statements
          ≡ delete_rows
              (λ t. leb (t.seq + max_statements_per_account) s.seq)
              (log_of account db.statements ++ s ∷ []))
      × ((other : String)
          → account ≢ other
          → log_of other db'.statements ≡ log_of other db.statements)
unfolding log_statement
append_statement-logs account blob now db {s} e =
    let (f, g) = next_number db account blob now e in
    rw (append_statement_commits db account blob now e) (
      f,
      subst
          (λ a.
            log_of account (delete_rows (is_trimmed a s.seq) (db.statements ++ s ∷ []))
            ≡ delete_rows (λ t. leb (t.seq + max_statements_per_account) s.seq)
                (log_of account db.statements ++ s ∷ []))
          (sym g) (log_of-own account s db.statements g),
      λ other h. log_of-other other s db.statements λ k. h (sym g ∙ k),
    )
