-- ===== src/Tests/ServerRuns.antt =====
-- The server's theorems at concrete inputs.
use sund.Prelude.{
  ◌*◌, ◌≡◌, ◌≢◌, refl, false, List, [], ◌∷◌, map, ◌<>◌, hex, bytes_eq, pos, negsuc, arith, All,
}
use Prim.Native.Nat.{min}
use sund.Sql.{find_row, update, count, has_row, select, order_by, insert_by, delete_rows}
use sund.Store.Tables.{new_id, second}
use sund.Store.Accounts.{create_account, resolve_quota, quota_bytes_for_class}
use sund.Store.Invitations.{create_invitation, granted_role, hash_token}
use sund.Store.Devices.{
  register_device, consume, enroll, insert_device, registered_role, get_device, touch_last_seen,
  list_devices,
}
use sund.Store.Roles.{
  require_admin, revoke_device, kill_device, may_revoke_other, assert_not_last_admin,
}
use sund.Store.Queues.{create_queue}
use sund.Store.Commands.{execute, run}
use sund.Server.Types.{Request, Server, reply, error, revocation_done}
use sund.Server.Nonces.{check_and_add, sweep, seen, put_nonce, is_replay}
use sund.Server.Auth.{
  extract_signature, is_signed, nonce_key, verify_and_record, require_signature, take,
}
use sund.Server.Push.{wake_account_devices}
use sund.Server.Transport.{clamp_message_ttl, default_message_ttl, max_message_ttl}
use sund.Server.Devices.{
  handle_revoke, handle_list_devices, find_target, wake_target, to_device_view,
}
use sund.Server.Routes.{Event, Route, serve_all}
use sund.Server.Replay.{check_all, replay_refused}
use sund.Server.Ttl.{clamp_bounded}
use sund.Server.Lockout.{IsAuthentic, require_signature-IsAuthentic, revocation_final}
use sund.Server.Privacy.{list_devices-private}
use sund.Tests.World.{world, library, first_device, server, asking}

clamp_bounded_example :
    (clamp_message_ttl (negsuc 4) ≡ pos default_message_ttl)
    × (clamp_message_ttl (pos 0) ≡ pos default_message_ttl)
    × (clamp_message_ttl (pos 60) ≡ pos (min (60 * second) max_message_ttl))
clamp_bounded_example = clamp_bounded 60 4 (omega arith) (omega arith)

replay_refused_example :
    (check_and_add "k" 900 500
      (check_all (("other", 900, 200) ∷ []) (check_and_add "k" 600 100 []).1)).0
    ≡ false
unfolding check_and_add sweep seen put_nonce is_replay
replay_refused_example =
    replay_refused "k" 600 900 100 500 (("other", 900, 200) ∷ []) [] refl (omega arith, tt)
      (omega arith)

-- The server after the request was let through.
abbrev authenticated : Server
authenticated = record {
  db = touch_last_seen "dev_01" (100 * second) world;
  nonces = ("dev_01" <> ("\0" <> "n1"), 400 * second) ∷ [];
  clock_skew = 300 * second;
  pings = [];
}

require_signature-IsAuthentic_example : IsAuthentic library asking server first_device authenticated
unfolding find_row update count has_row new_id create_account resolve_quota quota_bytes_for_class
    create_invitation granted_role hash_token register_device consume enroll insert_device
    registered_role create_queue execute run hex get_device touch_last_seen check_and_add sweep seen
    put_nonce is_replay extract_signature is_signed nonce_key verify_and_record require_signature
    take bytes_eq
require_signature-IsAuthentic_example =
    require_signature-IsAuthentic library asking server authenticated first_device refl

abbrev revoked : Server
revoked = (handle_revoke library asking server).1

abbrev locked_out : Request
locked_out = record asking { device_id = "dev_02"; nonce = "n2" }

abbrev later : List Event
later = Event.request Route.retire asking ∷ Event.tick (200 * second) ∷ []

revocation_final_example :
    require_signature library locked_out (serve_all library later revoked) ≡ (
      reply (record { status = 401; body = error "unauthorized" }),
      serve_all library later revoked,
    )
unfolding find_row update count has_row new_id create_account resolve_quota quota_bytes_for_class
    create_invitation granted_role hash_token register_device consume enroll insert_device
    registered_role create_queue execute run hex get_device touch_last_seen check_and_add sweep seen
    put_nonce is_replay extract_signature is_signed nonce_key verify_and_record require_signature
    take bytes_eq require_admin revoke_device kill_device may_revoke_other assert_not_last_admin
    wake_account_devices handle_revoke find_target wake_target list_devices select order_by
    insert_by delete_rows
revocation_final_example =
    revocation_final library asking locked_out server revoked revocation_done later refl refl

list_devices-private_example :
    All
      (λ v. v.id ≢ "dev_01" → v.push_endpoint ≡ "")
      (map (to_device_view library "dev_01") (list_devices authenticated.db "acc_01"))
unfolding find_row update count has_row new_id create_account resolve_quota quota_bytes_for_class
    create_invitation granted_role hash_token register_device consume enroll insert_device
    registered_role create_queue execute run hex get_device touch_last_seen check_and_add sweep seen
    put_nonce is_replay extract_signature is_signed nonce_key verify_and_record require_signature
    take bytes_eq handle_list_devices
list_devices-private_example =
    list_devices-private library asking server authenticated
      (map (to_device_view library "dev_01") (list_devices authenticated.db "acc_01")) refl
