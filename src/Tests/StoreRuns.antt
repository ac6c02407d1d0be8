-- ===== src/Tests/StoreRuns.antt =====
-- The store's theorems at concrete inputs.
use sund.Prelude.{
  ◌<◌, ◌≡◌, ◌⊎◌, refl, false, List, [], ◌∷◌, hex, codes, pos, arith, ◌≢◌, ◌==◌, String, true,
}
use sund.Sql.{find_row, update, count, has_row}
use sund.Store.Records.{get_bundle-set_bundle, register_device-role}
use sund.Store.Bundles.{set_bundle, get_bundle}
use sund.Store.Tables.{
  Account, Invitation, admin_mode_managed, format, Db, Device, empty_db, new_id, second, ok, err,
  invalid_invitation, role_admin, role_member,
}
use sund.Store.Accounts.{create_account, resolve_quota, quota_bytes_for_class}
use sund.Store.Invitations.{create_invitation, granted_role, hash_token}
use sund.Store.Devices.{register_device, consume, enroll, insert_device, registered_role}
use sund.Store.Roles.{
  revoke_device, kill_device, may_revoke_other, assert_not_last_admin, set_device_role, write_role,
}
use sund.Store.Queues.{create_queue}
use sund.Store.Commands.{Command, execute, run}
use sund.Store.Forward.{Forward}
use sund.Store.History.{run-Forward}
use sund.Store.Keyed.{IsKeyed, run-IsKeyed, empty_db-IsKeyed}
use sund.Store.Enrollment.{token_single_use}
use sund.Store.LastAdmin.{live_admins, live_devices, revoke_other-admins}
use sund.Store.LastAdmin.Demotion.{set_device_role-admins}
use sund.Store.LastAdmin.Peers.{run-admins}
use sund.Store.LastAdmin.Mutual.{mutual_revocation}
use sund.Tests.World.{world, hash, minute, key_text, other_text, first_device, apart, world-IsKeyed}

abbrev revocation : List Command
revocation = Command.revokes "dev_01" "dev_02" ∷ []

run-Forward_example : Forward world (run hash revocation world)
run-Forward_example = run-Forward hash revocation world

run-IsKeyed_example : IsKeyed (run hash revocation world)
run-IsKeyed_example = run-IsKeyed hash revocation world world-IsKeyed

revoke_other-admins_example :
    (0 < live_admins (kill_device "dev_02" world) "acc_01")
    ⊎ (live_devices (kill_device "dev_02" world) "acc_01" ≡ 0)
unfolding find_row update count has_row new_id create_account resolve_quota quota_bytes_for_class
    create_invitation granted_role hash_token register_device consume enroll insert_device
    registered_role create_queue execute run hex live_admins revoke_device may_revoke_other
    assert_not_last_admin
revoke_other-admins_example =
    revoke_other-admins world "dev_01" "dev_02" "acc_01" world-IsKeyed (apart _ _ refl) refl
      (omega arith)

set_device_role-admins_example : 0 < live_admins (write_role "dev_02" role_member world) "acc_01"
unfolding find_row update count has_row new_id create_account resolve_quota quota_bytes_for_class
    create_invitation granted_role hash_token register_device consume enroll insert_device
    registered_role create_queue execute run hex set_device_role write_role live_admins
    assert_not_last_admin
set_device_role-admins_example =
    set_device_role-admins world "acc_01" "dev_02" role_member "acc_01" world-IsKeyed refl
      (omega arith)

run-admins_example : 0 < live_admins (run hash revocation world) "acc_01"
unfolding find_row update count has_row new_id create_account resolve_quota quota_bytes_for_class
    create_invitation granted_role hash_token register_device consume enroll insert_device
    registered_role create_queue execute run hex live_admins
run-admins_example =
    run-admins hash "acc_01" revocation world world-IsKeyed ((apart _ _ refl, (refl, refl)), tt)
      (omega arith)

abbrev second_device : Device
second_device = record {
  id = "dev_02";
  account_id = "acc_01";
  public_key = codes other_text;
  push_endpoint = "https://two";
  capabilities = "";
  created = 1;
  last_seen = 1;
  revoked = false;
  quota_bytes = pos 0;
  role = role_admin;
}

mutual_revocation_example :
    (revoke_device "dev_01" "dev_02" world ≡ ok (tt, kill_device "dev_02" world))
    × (revoke_device "dev_02" "dev_01" (kill_device "dev_02" world)
        ≡ ok (tt, kill_device "dev_01" (kill_device "dev_02" world)))
    × (live_devices (kill_device "dev_01" (kill_device "dev_02" world)) "acc_01" ≡ 0)
unfolding find_row update count has_row new_id create_account resolve_quota quota_bytes_for_class
    create_invitation granted_role hash_token register_device consume enroll insert_device
    registered_role create_queue execute run hex live_devices
mutual_revocation_example =
    mutual_revocation world "dev_01" "dev_02" "acc_01" first_device second_device (apart _ _ refl)
      refl refl refl refl refl

-- Before the second registration of the setup.
abbrev opening : List Command
opening =
    Command.creates_account "free" (pos 0) "flat" second (1 ∷ [])
    ∷ Command.invites "acc_01" (pos minute) "" "token1" (1 ∷ []) second
    ∷ []

abbrev one_device : Db
one_device = run hash opening empty_db

token_single_use_example :
    register_device hash "token1" (codes other_text) "" "" (9 ∷ []) second (
      run hash revocation (
        run hash
          (Command.registers "token1" (codes key_text) "https://one" "" (1 ∷ []) second ∷ [])
          one_device))
    ≡ err invalid_invitation
unfolding find_row update count has_row new_id create_account resolve_quota quota_bytes_for_class
    create_invitation granted_role hash_token register_device consume enroll insert_device
    registered_role create_queue execute run hex
token_single_use_example =
    token_single_use hash "token1" one_device _ first_device (codes key_text) (codes other_text)
      "https://one" "" "" "" (1 ∷ []) (9 ∷ []) second second revocation
      (run-IsKeyed hash opening empty_db empty_db-IsKeyed) refl refl

get_bundle-set_bundle_example :
    (get_bundle
        (record world {
          bundles = record { device_id = "dev_01"; blob = 7 ∷ []; updated = 1 } ∷ [];
        })
        "dev_01"
      ≡ ok (7 ∷ [], format second))
    × ((other : String)
        → other ≢ "dev_01"
        → get_bundle
            (record world {
              bundles = record { device_id = "dev_01"; blob = 7 ∷ []; updated = 1 } ∷ [];
            })
            other
          ≡ get_bundle world other)
unfolding find_row update count has_row new_id create_account resolve_quota quota_bytes_for_class
    create_invitation granted_role hash_token register_device consume enroll insert_device
    registered_role create_queue execute run hex set_bundle
get_bundle-set_bundle_example = get_bundle-set_bundle "dev_01" (7 ∷ []) second world refl

-- The setup up to the second invitation.
abbrev four_steps : List Command
four_steps =
    Command.creates_account "free" (pos 0) admin_mode_managed second (1 ∷ [])
    ∷ Command.invites "acc_01" (pos minute) "" "token1" (1 ∷ []) second
    ∷ Command.registers "token1" (codes key_text) "https://one" "" (1 ∷ []) second
    ∷ Command.invites "acc_01" (pos minute) "admin" "token2" (2 ∷ []) second
    ∷ []

abbrev managed_account : Account
managed_account = record {
  id = "acc_01";
  created = 1;
  quota = "free";
  status = "active";
  quota_bytes = pos 67108864;
  admin_mode = "managed";
}

abbrev second_invitation : Invitation
second_invitation = record {
  token_hash = "746f6b656e32";
  id = "inv_02";
  account_id = "acc_01";
  created = 1;
  expires = 61;
  consumed = true;
  revoked = false;
  grants_role = "admin";
}

register_device-role_example :
    (("managed" ≢ admin_mode_managed) → second_device.role ≡ role_admin)
    × (count (λ e. e.account_id == "acc_01") (run hash four_steps empty_db).devices ≡ 0
        → second_device.role ≡ role_admin)
    × ("managed" ≡ admin_mode_managed
        → 0 < count (λ e. e.account_id == "acc_01") (run hash four_steps empty_db).devices
        → second_device.role ≡ "admin")
unfolding find_row update count has_row new_id create_account resolve_quota quota_bytes_for_class
    create_invitation granted_role hash_token register_device consume enroll insert_device
    registered_role create_queue execute run hex
register_device-role_example =
    register_device-role hash "token2" (codes other_text) "https://two" "" (2 ∷ []) second
      (run hash four_steps empty_db) managed_account second_invitation refl refl refl
