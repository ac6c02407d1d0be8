-- ===== src/Server/Stored/Devices.antt =====
-- The handlers of internal/server/devices.go with the commands that they amount to.
use sund.Prelude.{map, ◌==◌, nat_eq, length, ◌||◌}
use sund.Store.Tables.{public_key_size}
use sund.Store.Accounts.{account_quota_bytes}
use sund.Store.Invitations.{create_invitation, list_invitations, revoke_invitation, is_role}
use sund.Store.Devices.{register_device, list_devices}
use sund.Store.Roles.{revoke_device, set_device_role}
use sund.Store.Quotas.{device_stored_bytes}
use sund.Store.Commands.{Command, execute}
use sund.Server.Types.{
  Library, Request, registered, revocation_done, invitation, invitations, devices, quota, role,
  internal_error,
}
use sund.Server.Auth.{require_signature, take, max_body_bytes}
use sund.Server.Devices.{
  default_invitation_ttl, register_error, revoke_error, role_error, to_device_view, requested_role,
  to_invitation_view, handle_register, handle_revoke, handle_create_invitation,
  handle_list_invitations, handle_revoke_invitation, handle_list_devices, handle_get_quota,
  handle_set_role,
}
use sund.Server.Stored.{
  Reaches-refl, by_command, Stored, ◌>>=◌, ◌>>◌, responds, reads, or_replies, runs_store, requires,
}
use sund.Server.Stored.Steps.{
  verifies, requires_admin_role, requires_admin_unless, wakes_account, wakes_target, finds_target,
  requires_signature, of_steps, reads_account,
}

module _ (lib : Library) where
  pub register-Stored : (r : Request) → Stored lib.sha256 (handle_register lib r)
  unfolding handle_register wakes_account execute
  register-Stored r = of_steps lib do
    req ← or_replies (lib.json_register (take max_body_bytes r.body)) 400 "invalid json"
    key ← or_replies (lib.decode_string req.public_key) 400 "invalid public_key"
    requires (nat_eq (length key) public_key_size) 400 "invalid public_key"
    dev ←
        runs_store
          (register_device lib.sha256 req.token key req.push_endpoint req.capabilities r.random
            r.time_stored)
          register_error
          (by_command lib.sha256 (
            Command.registers req.token key req.push_endpoint req.capabilities r.random
              r.time_stored))
    wakes_account lib dev.account_id dev.id
    responds 201 (registered dev.id dev.account_id)

  pub revoke-Stored : (r : Request) → Stored lib.sha256 (handle_revoke lib r)
  unfolding handle_revoke require_signature requires_signature verifies finds_target
      requires_admin_unless wakes_account wakes_target execute
  revoke-Stored r = of_steps lib do
    caller ← requires_signature lib r
    target ← finds_target lib caller r.path_value
    requires_admin_unless lib (r.path_value == caller.id) caller
    runs_store (revoke_device caller.id r.path_value) revoke_error
        (by_command lib.sha256 (Command.revokes caller.id r.path_value))
    wakes_account lib caller.account_id caller.id
    wakes_target lib target.push_endpoint (r.path_value == caller.id)
    responds 200 revocation_done

  pub create_invitation-Stored : (r : Request) → Stored lib.sha256 (handle_create_invitation lib r)
  unfolding handle_create_invitation require_signature requires_signature verifies
      requires_admin_role wakes_account execute
  create_invitation-Stored r = of_steps lib do
    dev ← requires_signature lib r
    requires_admin_role lib dev
    asked ←
        or_replies (requested_role (lib.json_invitation (take max_body_bytes r.body))) 400
          "invalid json"
    requires (asked == "" || is_role asked) 400 "grants_role must be admin or member"
    inv ←
        runs_store
          (create_invitation lib.sha256 dev.account_id default_invitation_ttl asked r.random_token
            r.random r.time_stored)
          internal_error
          (by_command lib.sha256 (
            Command.invites dev.account_id default_invitation_ttl asked r.random_token r.random
              r.time_stored))
    wakes_account lib dev.account_id dev.id
    responds 201 (invitation r.random_token inv.id inv.expires)

  pub list_invitations-Stored : (r : Request) → Stored lib.sha256 (handle_list_invitations lib r)
  unfolding handle_list_invitations require_signature requires_signature verifies list_invitations
  list_invitations-Stored r = of_steps lib do
    dev ← requires_signature lib r
    invs ←
        runs_store (list_invitations dev.account_id r.time_stored) internal_error
          (λ db. Reaches-refl lib.sha256 db)
    responds 200 (invitations (map to_invitation_view invs))

  pub revoke_invitation-Stored : (r : Request) → Stored lib.sha256 (handle_revoke_invitation lib r)
  unfolding handle_revoke_invitation require_signature requires_signature verifies execute
  revoke_invitation-Stored r = of_steps lib do
    dev ← requires_signature lib r
    revoked ←
        runs_store (revoke_invitation dev.account_id r.path_value) internal_error
          (by_command lib.sha256 (Command.uninvites dev.account_id r.path_value))
    requires revoked 404 "no such invitation"
    responds 200 revocation_done

  pub list_devices-Stored : (r : Request) → Stored lib.sha256 (handle_list_devices lib r)
  unfolding handle_list_devices require_signature requires_signature verifies
  list_devices-Stored r = of_steps lib do
    dev ← requires_signature lib r
    devs ← reads (λ s. list_devices s.db dev.account_id)
    responds 200 (devices (map (to_device_view lib dev.id) devs))

  pub get_quota-Stored : (r : Request) → Stored lib.sha256 (handle_get_quota lib r)
  unfolding handle_get_quota require_signature requires_signature verifies
  get_quota-Stored r = of_steps lib do
    dev ← requires_signature lib r
    used ← reads (λ s. device_stored_bytes s.db dev.id r.time_stored)
    account_quota ←
        runs_store (account_quota_bytes dev.account_id) internal_error
          (λ db. reads_account lib dev.account_id db)
    responds 200 (quota dev.quota_bytes used account_quota)

  pub set_role-Stored : (r : Request) → Stored lib.sha256 (handle_set_role lib r)
  unfolding handle_set_role require_signature requires_signature verifies requires_admin_role
      wakes_account execute
  set_role-Stored r = of_steps lib do
    caller ← requires_signature lib r
    requires_admin_role lib caller
    asked ← or_replies (lib.json_role (take max_body_bytes r.body)) 400 "invalid json"
    runs_store (set_device_role caller.account_id r.path_value asked) role_error
        (by_command lib.sha256 (Command.sets_role caller.account_id r.path_value asked))
    wakes_account lib caller.account_id caller.id
    responds 200 (role asked)
