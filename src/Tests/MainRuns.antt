-- ===== src/Tests/MainRuns.antt =====
-- The theorem on the operator's command at a concrete input.
use sund.Prelude.{
  ℕ, ◌*◌, ◌≡◌, refl, true, false, none, some, [], ◌∷◌, ◌==◌, codes, hex, pos, if◌then◌else◌,
}
use sund.Sql.{find_row, update, count, has_row}
use sund.Store.Tables.{Db, Device, empty_db, new_id, second, role_admin, admin_mode_managed}
use sund.Store.Accounts.{create_account, resolve_quota, quota_bytes_for_class}
use sund.Store.Invitations.{create_invitation, granted_role, hash_token}
use sund.Store.Devices.{register_device, consume, enroll, insert_device, registered_role}
use sund.Main.Types.{Flags, Environment, Run, Machine, account_created, env_or, flag_or_env}
use sund.Main.Admin.{run_admin_account_create}
use sund.Main.Founding.{founding-admin}
use sund.Tests.World.{key_text}
use sund.Tests.IdentityRuns.{x509, os}

abbrev pub flags : Flags
flags = record {
  text = λ name. if name == "admin-mode" then some admin_mode_managed else none;
  number = λ name. none;
  switch = λ name. none;
  args = [];
}

abbrev pub environment : Environment ℕ
environment = record {
  getenv = λ name. "";
  parse = λ args. some flags;
  parse_int = λ s. none;
  probe = λ url. none;
  poster = record { is_endpoint = λ url. true; send = λ post. some 200 };
  sha256 = λ b. b;
  x509 = x509;
  os = os;
}

abbrev started : Run
started = record { now = second; random = 1 ∷ []; random' = 2 ∷ []; token = "token" }

abbrev founded : Db
founded = record empty_db {
  accounts =
      record {
        id = "acc_01";
        created = 1;
        quota = "standard";
        status = "active";
        quota_bytes = pos 67108864;
        admin_mode = admin_mode_managed;
      }
      ∷ [];
  invitations =
      record {
        token_hash = "746f6b656e";
        id = "inv_02";
        account_id = "acc_01";
        created = 1;
        expires = 901;
        consumed = false;
        revoked = false;
        grants_role = role_admin;
      }
      ∷ [];
}

abbrev machine : Machine
machine = record { databases = λ path. some empty_db; disk = []; pings = []; output = [] }

abbrev finished : Machine
finished = record {
  databases = λ p.
      if p == "sund.db"
      then some founded
      else if p == "sund.db"
      then some (record founded { invitations = [] })
      else some empty_db;
  disk = [];
  pings = [];
  output = account_created "acc_01" admin_mode_managed "token" ∷ [];
}

abbrev first_admin : Device
first_admin = record {
  id = "dev_03";
  account_id = "acc_01";
  public_key = codes key_text;
  push_endpoint = "";
  capabilities = "";
  created = 2;
  last_seen = 2;
  revoked = false;
  quota_bytes = pos 0;
  role = role_admin;
}

abbrev enrolled : Db
enrolled = record founded {
  devices = first_admin ∷ [];
  invitations =
      record {
        token_hash = "746f6b656e";
        id = "inv_02";
        account_id = "acc_01";
        created = 1;
        expires = 901;
        consumed = true;
        revoked = false;
        grants_role = role_admin;
      }
      ∷ [];
}

founding-admin_example :
    (first_admin.role ≡ role_admin) × (first_admin.account_id ≡ new_id "acc_" (1 ∷ []))
unfolding find_row update count has_row new_id create_account resolve_quota quota_bytes_for_class
    create_invitation granted_role hash_token register_device consume enroll insert_device
    registered_role hex run_admin_account_create env_or flag_or_env
founding-admin_example =
    founding-admin environment started [] flags machine finished founded enrolled first_admin
      (codes key_text) "" "" (3 ∷ []) (2 * second) refl refl refl refl
