-- ===== src/Store/Roles.antt =====
-- internal/store/store.go: RequireAdmin, RevokeDevice, SetDeviceRole, assertNotLastAdmin,
-- PromoteDevice.
use sund.Prelude.{Bool, true, false, not, ◌&&◌, none, some, String, ◌==◌, ltb, if◌then◌else◌}
use sund.Sql.{find_row, update, delete_rows, count, has_row}
use sund.Store.Tables.{
  Db, Device, Message, Tx, Result, ok, err, bad_argument, no_rows, device_not_found, not_admin,
  last_admin, role_change_not_applicable, account_at, device_at, admin_mode_managed, role_admin,
  role_member,
}
use sund.Store.Invitations.{is_role}

-- RequireAdmin
unfoldable pub require_admin : Device → Result (Unit {0})
require_admin d = if d.role == role_admin then ok tt else err not_admin

-- The other devices of the account that are not revoked.
abbrev pub is_other_live : String → String → Device → Bool
is_other_live account_id id d = d.account_id == account_id && not d.revoked && not (d.id == id)

abbrev pub is_other_admin : String → String → Device → Bool
is_other_admin account_id id d = is_other_live account_id id d && d.role == role_admin

-- assertNotLastAdmin
unfoldable pub assert_not_last_admin : Db → String → String → Bool → Result (Unit {0})
assert_not_last_admin db account_id id allow_if_empties =
    if ltb 0 (count (is_other_admin account_id id) db.devices)
    then ok tt
    else if not allow_if_empties
    then err last_admin
    else if ltb 0 (count (is_other_live account_id id) db.devices)
    then err last_admin
    else ok tt

-- queue_id IN (SELECT recipient_id FROM queues WHERE owner_device = id)
abbrev pub in_queue_of : Db → String → Message → Bool
in_queue_of db id m = has_row (λ q. q.recipient_id == m.queue_id && q.owner_device == id) db.queues

-- The four writes of RevokeDevice.
unfoldable pub kill_device : String → Db → Db
kill_device id db = record db {
  messages = delete_rows (in_queue_of db id) db.messages;
  queues = update (λ q. q.owner_device == id) (λ q. record q { retired = true }) db.queues;
  bundles = delete_rows (λ b. b.device_id == id) db.bundles;
  devices =
      update (λ d. d.id == id) (λ d. record d { revoked = true; push_endpoint = "" }) db.devices;
}

-- The check of RevokeDevice on a target that is not the caller.
unfoldable pub may_revoke_other : Db → String → Result (Unit {0})
unfolding assert_not_last_admin
may_revoke_other db id = elim (device_at db id) [
  | none ↦ err device_not_found
  | some d ↦
      if not d.revoked && d.role == role_admin
      then assert_not_last_admin db d.account_id id true
      else ok tt
]

-- RevokeDevice
unfoldable pub revoke_device : String → String → Tx (Unit {0})
unfolding kill_device may_revoke_other
revoke_device caller_id id db =
    let allowed : Result (Unit {0}) = if caller_id == id then ok tt else may_revoke_other db id in
    elim allowed [ err e ↦ err e | ok _ ↦ ok (tt, kill_device id db) ]

abbrev pub is_live_in : String → String → Device → Bool
is_live_in account_id id d = d.id == id && d.account_id == account_id && not d.revoked

-- The write of SetDeviceRole and PromoteDevice.
unfoldable pub write_role : String → String → Db → Db
write_role id role db = record db {
  devices = update (λ d. d.id == id) (λ d. record d { role = role }) db.devices;
}

-- SetDeviceRole
unfoldable pub set_device_role : String → String → String → Tx (Unit {0})
unfolding write_role assert_not_last_admin
set_device_role account_id id role db =
    if not (is_role role) then err bad_argument else elim (account_at db account_id) [
      | none ↦ err no_rows
      | some a ↦
          if not (a.admin_mode == admin_mode_managed)
          then err role_change_not_applicable
          else elim (find_row (is_live_in account_id id) db.devices) [
            | none ↦ err device_not_found
            | some d ↦
                let allowed : Result (Unit {0}) =
                  if d.role == role_admin && role == role_member
                  then assert_not_last_admin db account_id id false
                  else ok tt in
                elim allowed [ err e ↦ err e | ok _ ↦ ok (tt, write_role id role db) ]
          ]
    ]

-- PromoteDevice
unfoldable pub promote_device : String → Tx (Unit {0})
unfolding write_role
promote_device id db = elim (find_row (λ d. d.id == id && not d.revoked) db.devices) [
  | none ↦ err device_not_found
  | some d ↦ elim (account_at db d.account_id) [
    | none ↦ err device_not_found
    | some a ↦
        if not (a.admin_mode == admin_mode_managed)
        then err role_change_not_applicable
        else ok (tt, write_role id role_admin db)
  ]
]
