-- ===== src/Tests/WakeRuns.antt =====
-- The theorem on the pings of a promotion at a concrete input.
use sund.Prelude.{ℕ, ◌≡◌, refl, some, [], ◌∷◌, ◌++◌, map, pos}
use sund.Sql.{select, find_row, update, order_by, insert_by}
use sund.Store.Tables.{Db, Device, ok, empty_db, role_member}
use sund.Store.Devices.{get_device, list_devices}
use sund.Store.Roles.{promote_device, write_role}
use sund.Push.{ping, post_of}
use sund.Main.Types.{Flags, Environment, Machine, env_or, flag_or_env}
use sund.Main.Admin.{run_admin_device_promote, ping_account, ping_all, ping_device}
use sund.Main.Wakes.{is_woken, wake_of, promote-wakes}
use sund.Tests.World.{first_device}
use sund.Tests.MainRuns.{flags, environment}

abbrev promoting : Flags
promoting = record flags { args = "dev_01" ∷ [] }

abbrev operator : Environment ℕ
operator = record environment { parse = λ args. some promoting }

abbrev member : Device
member = record first_device { role = role_member }

abbrev peer : Device
peer = record first_device { id = "dev_02"; push_endpoint = "https://two" }

abbrev managed : Db
managed = record empty_db {
  accounts =
      record {
        id = "acc_01";
        created = 1;
        quota = "standard";
        status = "active";
        quota_bytes = pos 0;
        admin_mode = "managed";
      }
      ∷ [];
  devices = member ∷ peer ∷ [];
}

abbrev idle : Machine
idle = record { databases = λ path. some managed; disk = []; pings = []; output = [] }

abbrev promoted_machine : Machine
promoted_machine = (run_admin_device_promote operator [] idle).1

promote-wakes_example :
    (db : Db) × (dev : Device) × (db' : Db) × (idle.databases "sund.db" ≡ some db)
    × (get_device db "dev_01" ≡ ok dev)
    × (promote_device "dev_01" db ≡ ok (tt, db'))
    × (promoted_machine.databases "sund.db" ≡ some db')
    × (promoted_machine.pings
        ≡ [] ++ map wake_of (select (is_woken "") (list_devices db' dev.account_id)))
unfolding run_admin_device_promote ping_account ping_all ping_device ping post_of flag_or_env env_or
    promote_device write_role get_device list_devices select order_by insert_by find_row update
promote-wakes_example =
    promote-wakes operator [] promoting "dev_01" idle promoted_machine refl refl refl
