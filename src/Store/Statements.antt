-- ===== src/Store/Statements.antt =====
-- internal/store/store.go: AppendStatement, ListStatements.
use Prim.Native.Nat.{max}
use sund.Prelude.{
  ℕ, suc, ◌+◌, Bool, ◌&&◌, not, List, [], ◌∷◌, ◌++◌, String, ◌==◌, Bytes, ltb, leb, nat_eq, length,
  if◌then◌else◌,
}
use sund.Sql.{select, delete_rows, has_row, order_by}
use sund.Store.Tables.{
  Db, Statement, Tx, ok, err, bad_argument, constraint, statement_too_large, format,
}

abbrev pub max_statement_bytes : ℕ
max_statement_bytes = 4096

abbrev pub max_statements_per_account : ℕ
max_statements_per_account = 256

abbrev pub of_account : String → Statement → Bool
of_account account_id s = s.account_id == account_id

-- SELECT COALESCE(MAX(seq), 0) ... WHERE account_id = ?
unfoldable pub last_seq : String → List Statement → ℕ
last_seq account_id [] = 0
last_seq account_id (s ∷ ss) =
    if of_account account_id s then max s.seq (last_seq account_id ss) else last_seq account_id ss

-- seq <= next - MaxStatementsPerAccount, on integers
abbrev pub is_trimmed : String → ℕ → Statement → Bool
is_trimmed account_id next s =
    of_account account_id s && leb (s.seq + max_statements_per_account) next

-- The INSERT and the DELETE of AppendStatement.
unfoldable pub log_statement : Statement → Db → Db
log_statement s db = record db {
  statements = delete_rows (is_trimmed s.account_id s.seq) (db.statements ++ s ∷ []);
}

-- AppendStatement, with the clock.
unfoldable pub append_statement : String → Bytes → ℕ → Tx Statement
unfolding log_statement
append_statement account_id blob now db =
    let s : Statement = record {
      account_id = account_id;
      seq = suc (last_seq account_id db.statements);
      blob = blob;
      created = format now;
    } in
    if nat_eq (length blob) 0
    then err bad_argument
    else if ltb max_statement_bytes (length blob)
    then err statement_too_large
    else if not (has_row (λ a. a.id == account_id) db.accounts)
    then err constraint
    else ok (s, log_statement s db)

-- ListStatements
unfoldable pub list_statements : Db → String → ℕ → List Statement
list_statements db account_id since =
    order_by (λ s t. leb s.seq t.seq)
      (select (λ s. of_account account_id s && ltb since s.seq) db.statements)
