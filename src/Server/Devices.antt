-- ===== src/Server/Devices.antt =====
-- internal/server/devices.go: registration, revocation, roles, invitations, the device list and
-- the quota of a device.
use sund.Prelude.{
  ℕ, ◌*◌, Bool, not, ◌&&◌, ◌||◌, Option, none, some, map, String, ◌==◌, ℤ, pos, nat_eq, length,
  if◌then◌else◌,
}
use sund.Store.Tables.{
  Device, Invitation, Error, invalid_invitation, device_not_found, last_admin,
  role_change_not_applicable, public_key_size, second,
}
use sund.Store.Accounts.{account_quota_bytes}
use sund.Store.Invitations.{create_invitation, list_invitations, revoke_invitation, is_role}
use sund.Store.Devices.{register_device, get_device, list_devices}
use sund.Store.Roles.{require_admin, revoke_device, set_device_role}
use sund.Store.Quotas.{device_stored_bytes}
use sund.Server.Types.{
  Library, Request, Handler, Decoded, value, ended, malformed, normal, next, registered,
  revocation_done, devices, DeviceView, invitation, invitations, InvitationView, role, quota, ◌>>=◌,
  ◌>>◌, respond, give, gets, require, or_reply, run_store, read_store, internal_error,
}
use sund.Server.Auth.{require_signature, take, max_body_bytes}
use sund.Server.Push.{dispatch_ping, wake_account_devices}

abbrev pub default_invitation_ttl : ℤ
default_invitation_ttl = pos (15 * 60 * second)

abbrev pub register_error : Error → ℕ × String
register_error invalid_invitation = (401, "invalid or expired invitation")
register_error _ = (500, "internal error")

abbrev pub revoke_error : Error → ℕ × String
revoke_error last_admin = (409, "account would lose its last admin")
revoke_error device_not_found = (404, "no such device")
revoke_error _ = (500, "internal error")

abbrev pub role_error : Error → ℕ × String
role_error role_change_not_applicable = (409, "roles are not changeable in a flat account")
role_error last_admin = (409, "account would lose its last admin")
role_error device_not_found = (404, "no such device")
role_error _ = (400, "invalid role")

-- The caller is an admin, or the response is 403.
abbrev pub require_admin_role : Device → Handler (Unit {0})
require_admin_role d = read_store (λ _. require_admin d) (λ _. (403, "admin role required"))

-- A device of the caller's account, or the response is 404.
unfoldable pub find_target : Device → String → Handler Device
find_target caller id = do
  target ← read_store (λ db. get_device db id) (λ _. (404, "no such device"))
  require (target.account_id == caller.account_id) 404 "no such device"
  give target

-- The last wake-up of handleRevoke, with the endpoint that the target had.
unfoldable pub wake_target : String → Bool → Handler (Unit {0})
wake_target endpoint is_self s =
    (next tt, if not (endpoint == "") && not is_self then dispatch_ping endpoint normal s else s)

-- toDeviceView
unfoldable pub to_device_view : Library → String → Device → DeviceView
to_device_view lib caller_id d = record {
  id = d.id;
  role = d.role;
  public_key = lib.encode_string d.public_key;
  push_endpoint = if d.id == caller_id then d.push_endpoint else "";
  capabilities = d.capabilities;
  created = d.created;
  last_seen = d.last_seen;
  revoked = d.revoked;
}

-- The role that the body of a mint asks for; a body with no value asks for none.
unfoldable pub requested_role : Decoded String → Option String
requested_role (value r) = some r
requested_role ended = some ""
requested_role malformed = none

unfoldable pub to_invitation_view : Invitation → InvitationView
to_invitation_view i = record { id = i.id; created = i.created; expires = i.expires }

module _ (lib : Library) where
  -- handleRegister
  unfoldable pub handle_register : Request → Handler (Unit {0})
  handle_register r = do
    req ← or_reply (lib.json_register (take max_body_bytes r.body)) 400 "invalid json"
    key ← or_reply (lib.decode_string req.public_key) 400 "invalid public_key"
    require (nat_eq (length key) public_key_size) 400 "invalid public_key"
    dev ←
        run_store
          (register_device lib.sha256 req.token key req.push_endpoint req.capabilities r.random
            r.time_stored)
          register_error
    wake_account_devices dev.account_id dev.id
    respond 201 (registered dev.id dev.account_id)

  -- handleRevoke
  unfoldable pub handle_revoke : Request → Handler (Unit {0})
  unfolding find_target wake_target
  handle_revoke r = do
    caller ← require_signature lib r
    target ← find_target caller r.path_value
    if r.path_value == caller.id then give tt else require_admin_role caller
    run_store (revoke_device caller.id r.path_value) revoke_error
    wake_account_devices caller.account_id caller.id
    wake_target target.push_endpoint (r.path_value == caller.id)
    respond 200 revocation_done

  -- handleCreateInvitation
  unfoldable pub handle_create_invitation : Request → Handler (Unit {0})
  unfolding requested_role
  handle_create_invitation r = do
    dev ← require_signature lib r
    require_admin_role dev
    asked ←
        or_reply (requested_role (lib.json_invitation (take max_body_bytes r.body))) 400
          "invalid json"
    require (asked == "" || is_role asked) 400 "grants_role must be admin or member"
    inv ←
        run_store
          (create_invitation lib.sha256 dev.account_id default_invitation_ttl asked r.random_token
            r.random r.time_stored)
          internal_error
    wake_account_devices dev.account_id dev.id
    respond 201 (invitation r.random_token inv.id inv.expires)

  -- handleListInvitations
  unfoldable pub handle_list_invitations : Request → Handler (Unit {0})
  unfolding to_invitation_view
  handle_list_invitations r = do
    dev ← require_signature lib r
    invs ← run_store (list_invitations dev.account_id r.time_stored) internal_error
    respond 200 (invitations (map to_invitation_view invs))

  -- handleRevokeInvitation
  unfoldable pub handle_revoke_invitation : Request → Handler (Unit {0})
  handle_revoke_invitation r = do
    dev ← require_signature lib r
    revoked ← run_store (revoke_invitation dev.account_id r.path_value) internal_error
    require revoked 404 "no such invitation"
    respond 200 revocation_done

  -- handleListDevices
  unfoldable pub handle_list_devices : Request → Handler (Unit {0})
  unfolding to_device_view
  handle_list_devices r = do
    dev ← require_signature lib r
    devs ← gets (λ s. list_devices s.db dev.account_id)
    respond 200 (devices (map (to_device_view lib dev.id) devs))

  -- handleGetQuota
  unfoldable pub handle_get_quota : Request → Handler (Unit {0})
  handle_get_quota r = do
    dev ← require_signature lib r
    used ← gets (λ s. device_stored_bytes s.db dev.id r.time_stored)
    account_quota ← run_store (account_quota_bytes dev.account_id) internal_error
    respond 200 (quota dev.quota_bytes used account_quota)

  -- handleSetRole
  unfoldable pub handle_set_role : Request → Handler (Unit {0})
  handle_set_role r = do
    caller ← require_signature lib r
    require_admin_role caller
    asked ← or_reply (lib.json_role (take max_body_bytes r.body)) 400 "invalid json"
    run_store (set_device_role caller.account_id r.path_value asked) role_error
    wake_account_devices caller.account_id caller.id
    respond 200 (role asked)
