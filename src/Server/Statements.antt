-- ===== src/Server/Statements.antt =====
-- internal/server/statements.go: the log of administrative statements.
use sund.Prelude.{ℕ, not, Option, none, some, map, String, ℤ, pos, negsuc, nat_eq, length}
use sund.Store.Tables.{Statement, Error, statement_too_large}
use sund.Store.Statements.{append_statement, list_statements}
use sund.Server.Types.{
  Library, Request, Handler, statement, statements, StatementView, ◌>>=◌, ◌>>◌, respond, gets,
  require, or_reply, run_store,
}
use sund.Server.Auth.{require_signature, take, max_body_bytes}
use sund.Server.Devices.{require_admin_role}

abbrev pub statement_error : Error → ℕ × String
statement_error statement_too_large = (413, "statement too large")
statement_error _ = (500, "internal error")

-- A sequence number that is not negative.
unfoldable pub since_of : Option ℤ → Option ℕ
since_of none = none
since_of (some (pos n)) = some n
since_of (some (negsuc n)) = none

module _ (lib : Library) where
  unfoldable pub to_statement_view : Statement → StatementView
  to_statement_view st = record {
    seq = st.seq;
    statement = lib.encode_string st.blob;
    created = st.created;
  }

  -- handleAppendStatement
  unfoldable pub handle_append_statement : Request → Handler (Unit {0})
  unfolding to_statement_view
  handle_append_statement r = do
    dev ← require_signature lib r
    require_admin_role dev
    encoded ← or_reply (lib.json_statement (take max_body_bytes r.body)) 400 "invalid json"
    blob ← or_reply (lib.decode_string encoded) 400 "invalid statement"
    require (not (nat_eq (length blob) 0)) 400 "invalid statement"
    st ← run_store (append_statement dev.account_id blob r.time_stored) statement_error
    respond 201 (statement (to_statement_view st))

  -- handleListStatements
  unfoldable pub handle_list_statements : Request → Handler (Unit {0})
  unfolding since_of to_statement_view
  handle_list_statements r = do
    dev ← require_signature lib r
    since ← or_reply (since_of (lib.parse_int r.path_value)) 400 "invalid since"
    sts ← gets (λ s. list_statements s.db dev.account_id since)
    respond 200 (statements (map to_statement_view sts))
