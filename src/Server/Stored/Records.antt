-- ===== src/Server/Stored/Records.antt =====
-- The handlers of push.go, statements.go and bundles.go in internal/server with the commands that
-- they amount to.
use sund.Prelude.{map, not, ◌==◌, nat_eq, length, ◌&&◌, leb}
use Prim.Native.String.{len}
use sund.Store.Devices.{get_device, update_push_endpoint}
use sund.Store.Statements.{append_statement, list_statements}
use sund.Store.Bundles.{set_bundle, get_bundle}
use sund.Store.Commands.{Command, execute}
use sund.Server.Types.{Library, Request, statement, statements, bundle, status_ok, internal_error}
use sund.Server.Auth.{require_signature, take, max_body_bytes}
use sund.Server.Push.{max_push_endpoint_len, handle_update_push}
use sund.Server.Statements.{
  statement_error, since_of, to_statement_view, handle_append_statement, handle_list_statements,
}
use sund.Server.Bundles.{max_bundle_bytes, handle_set_bundle, handle_get_bundle}
use sund.Server.Stored.{
  by_command, Stored, ◌>>=◌, ◌>>◌, responds, reads, or_replies, reads_store, runs_store, requires,
  modifies_db,
}
use sund.Server.Stored.Steps.{verifies, requires_admin_role, requires_signature, of_steps}

module _ (lib : Library) where
  pub update_push-Stored : (r : Request) → Stored lib.sha256 (handle_update_push lib r)
  unfolding handle_update_push require_signature requires_signature verifies execute
  update_push-Stored r = of_steps lib do
    dev ← requires_signature lib r
    endpoint ← or_replies (lib.json_push (take max_body_bytes r.body)) 400 "invalid json"
    requires (leb (len endpoint) max_push_endpoint_len) 400 "push_endpoint too long"
    modifies_db (update_push_endpoint dev.id endpoint)
        (by_command lib.sha256 (Command.sets_endpoint dev.id endpoint))
    responds 200 status_ok

  pub append_statement-Stored : (r : Request) → Stored lib.sha256 (handle_append_statement lib r)
  unfolding handle_append_statement require_signature requires_signature verifies
      requires_admin_role execute
  append_statement-Stored r = of_steps lib do
    dev ← requires_signature lib r
    requires_admin_role lib dev
    encoded ← or_replies (lib.json_statement (take max_body_bytes r.body)) 400 "invalid json"
    blob ← or_replies (lib.decode_string encoded) 400 "invalid statement"
    requires (not (nat_eq (length blob) 0)) 400 "invalid statement"
    st ←
        runs_store (append_statement dev.account_id blob r.time_stored) statement_error
          (by_command lib.sha256 (Command.states dev.account_id blob r.time_stored))
    responds 201 (statement (to_statement_view lib st))

  pub list_statements-Stored : (r : Request) → Stored lib.sha256 (handle_list_statements lib r)
  unfolding handle_list_statements require_signature requires_signature verifies
  list_statements-Stored r = of_steps lib do
    dev ← requires_signature lib r
    since ← or_replies (since_of (lib.parse_int r.path_value)) 400 "invalid since"
    sts ← reads (λ s. list_statements s.db dev.account_id since)
    responds 200 (statements (map (to_statement_view lib) sts))

  pub set_bundle-Stored : (r : Request) → Stored lib.sha256 (handle_set_bundle lib r)
  unfolding handle_set_bundle require_signature requires_signature verifies execute
  set_bundle-Stored r = of_steps lib do
    dev ← requires_signature lib r
    encoded ← or_replies (lib.json_bundle (take max_body_bytes r.body)) 400 "invalid json"
    blob ← or_replies (lib.decode_string encoded) 400 "invalid bundle"
    requires (not (nat_eq (length blob) 0)) 400 "empty bundle"
    requires (leb (length blob) max_bundle_bytes) 413 "bundle too large"
    runs_store (set_bundle dev.id blob r.time_stored) internal_error
        (by_command lib.sha256 (Command.sets_bundle dev.id blob r.time_stored))
    responds 200 status_ok

  pub get_bundle-Stored : (r : Request) → Stored lib.sha256 (handle_get_bundle lib r)
  unfolding handle_get_bundle require_signature requires_signature verifies
  get_bundle-Stored r = of_steps lib do
    caller ← requires_signature lib r
    target ← reads_store (λ db. get_device db r.path_value) (λ _. (404, "no such bundle"))
    requires (target.account_id == caller.account_id && not target.revoked) 404 "no such bundle"
    found ← reads_store (λ db. get_bundle db r.path_value) (λ _. (404, "no such bundle"))
    responds 200 (bundle (lib.encode_string found.0) found.1)
