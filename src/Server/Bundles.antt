-- ===== src/Server/Bundles.antt =====
-- internal/server/bundles.go: the key bundles.
use sund.Prelude.{ℕ, not, ◌&&◌, ◌==◌, leb, nat_eq, length}
use sund.Store.Devices.{get_device}
use sund.Store.Bundles.{set_bundle, get_bundle}
use sund.Server.Types.{
  Library, Request, Handler, status_ok, bundle, ◌>>=◌, ◌>>◌, respond, require, or_reply, run_store,
  read_store, internal_error,
}
use sund.Server.Auth.{require_signature, take, max_body_bytes}

abbrev pub max_bundle_bytes : ℕ
max_bundle_bytes = 8192

module _ (lib : Library) where
  -- handleSetBundle
  unfoldable pub handle_set_bundle : Request → Handler (Unit {0})
  handle_set_bundle r = do
    dev ← require_signature lib r
    encoded ← or_reply (lib.json_bundle (take max_body_bytes r.body)) 400 "invalid json"
    blob ← or_reply (lib.decode_string encoded) 400 "invalid bundle"
    require (not (nat_eq (length blob) 0)) 400 "empty bundle"
    require (leb (length blob) max_bundle_bytes) 413 "bundle too large"
    run_store (set_bundle dev.id blob r.time_stored) internal_error
    respond 200 status_ok

  -- handleGetBundle
  unfoldable pub handle_get_bundle : Request → Handler (Unit {0})
  handle_get_bundle r = do
    caller ← require_signature lib r
    target ← read_store (λ db. get_device db r.path_value) (λ _. (404, "no such bundle"))
    require (target.account_id == caller.account_id && not target.revoked) 404 "no such bundle"
    found ← read_store (λ db. get_bundle db r.path_value) (λ _. (404, "no such bundle"))
    respond 200 (bundle (lib.encode_string found.0) found.1)
