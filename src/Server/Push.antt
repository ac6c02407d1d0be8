-- ===== src/Server/Push.antt =====
-- internal/server/push.go: the wake-ups, and the handler of a device's push endpoint.
use sund.Prelude.{ℕ, Bool, not, ◌&&◌, [], ◌∷◌, ◌++◌, map, String, ◌==◌, leb, if◌then◌else◌}
use Prim.Native.String.{len}
use sund.Sql.{select}
use sund.Store.Tables.{Device, ok, err}
use sund.Store.Devices.{get_device, list_devices, update_push_endpoint}
use sund.Server.Types.{
  Library, Request, Server, Handler, Priority, normal, next, status_ok, ◌>>=◌, ◌>>◌, require,
  or_reply, respond, modify_db,
}
use sund.Server.Auth.{require_signature, take, max_body_bytes}

abbrev pub max_push_endpoint_len : ℕ
max_push_endpoint_len = 2048

-- dispatchPing hands the ping to the pinger; its delivery is not waited for.
abbrev pub dispatch_ping : String → Priority → Server → Server
dispatch_ping endpoint priority s = record s { pings = s.pings ++ (endpoint, priority) ∷ [] }

-- The device can be woken.
abbrev pub is_reachable : Device → Bool
is_reachable d = not d.revoked && not (d.push_endpoint == "")

-- wakeQueueOwner
unfoldable pub wake_queue_owner : String → Priority → Handler (Unit {0})
wake_queue_owner owner_device priority s = elim (get_device s.db owner_device) [
  | err _ ↦ (next tt, s)
  | ok d ↦ (next tt, if is_reachable d then dispatch_ping d.push_endpoint priority s else s)
]

-- wakeAccountDevices
unfoldable pub wake_account_devices : String → String → Handler (Unit {0})
wake_account_devices account_id except s = (
  next tt,
  record s {
    pings =
        s.pings
        ++ map (λ (d : Device). (d.push_endpoint, normal))
            (select (λ d. not (d.id == except) && is_reachable d) (list_devices s.db account_id));
  },
)

-- handleUpdatePush
unfoldable pub handle_update_push : Library → Request → Handler (Unit {0})
handle_update_push lib r = do
  dev ← require_signature lib r
  endpoint ← or_reply (lib.json_push (take max_body_bytes r.body)) 400 "invalid json"
  require (leb (len endpoint) max_push_endpoint_len) 400 "push_endpoint too long"
  modify_db (update_push_endpoint dev.id endpoint)
  respond 200 status_ok
