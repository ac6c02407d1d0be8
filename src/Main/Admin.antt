-- ===== src/Main/Admin.antt =====
-- main.go: runAdmin, runAdminAccountCreate, runAdminDeviceQuota, runAdminDevicePromote, pingAccount.
use sund.Prelude.{
  ◌*◌, ◌&&◌, ◌||◌, Option, none, some, List, [], ◌∷◌, ◌++◌, String, ◌==◌, pos, is_neg,
  if◌then◌else◌,
}
use sund.Store.Tables.{Device, ok, second, admin_mode_flat, role_admin}
use sund.Store.Accounts.{create_account}
use sund.Store.Invitations.{create_invitation}
use sund.Store.Devices.{get_device, list_devices}
use sund.Store.Roles.{promote_device}
use sund.Store.Quotas.{set_device_quota, device_stored_bytes}
use sund.Server.Types.{normal}
use sund.Push.{ping}
use sund.Main.Types.{
  Flags, Environment, Run, account_created, promoted, ceiling, ceiling_set, not_listed, not_pinged,
  usage, exited, bad_bytes, done, Step, ◌>>=◌, ◌>>◌, fail, or_fail, print, open_store, run_store,
  read_store, or_default, flag_or_env,
}

module _ {Key : Type 0} (env : Environment Key) where
  -- The ping of one device, and the warning if it fails.
  unfoldable pub ping_device : Device → Step (Unit {0})
  unfolding ping
  ping_device d s =
      let s' = record s { pings = s.pings ++ (d.push_endpoint, normal) ∷ [] } in
      elim (ping env.poster d.push_endpoint normal) [
        | none ↦ (done tt, s')
        | some e ↦ print (not_pinged d.id) s'
      ]

  -- The loop of pingAccount.
  unfoldable pub ping_all : String → List Device → Step (Unit {0})
  unfolding ping_device
  ping_all except_id [] s = (done tt, s)
  ping_all except_id (d ∷ ds) s =
      let s' =
        if d.id == except_id || d.revoked || d.push_endpoint == ""
        then s
        else (ping_device d s).1 in
      ping_all except_id ds s'

  -- pingAccount
  unfoldable pub ping_account : String → String → String → Step (Unit {0})
  unfolding ping_all
  ping_account path account_id except_id s = elim (s.databases path) [
    | none ↦ print not_listed s
    | some db ↦ ping_all except_id (list_devices db account_id) s
  ]

  abbrev pub db_path : Flags → String
  db_path flags = flag_or_env env flags "db" "SUND_DB" "sund.db"

  abbrev pub first_arg : Flags → Option String
  first_arg flags = elim flags.args [ [] ↦ none | id ∷ rest ↦ some id ]

  -- runAdminDevicePromote
  unfoldable pub run_admin_device_promote : List String → Step (Unit {0})
  unfolding ping_account flag_or_env
  run_admin_device_promote args = do
    flags ← or_fail (env.parse args) exited
    id ← or_fail (first_arg flags) usage
    opened ← open_store (db_path flags)
    dev ← read_store (db_path flags) (λ db. get_device db id)
    run_store (db_path flags) (promote_device id)
    ping_account (db_path flags) dev.account_id ""
    print (promoted id)

  -- The case of runAdminDeviceQuota that shows a ceiling.
  unfoldable pub show_ceiling : Run → String → Device → Step (Unit {0})
  show_ceiling run path dev = do
    used ← read_store path (λ db. ok (device_stored_bytes db dev.id run.now))
    print (ceiling dev.id dev.quota_bytes used)

  -- The case that sets it.
  unfoldable pub set_ceiling : String → Device → String → Step (Unit {0})
  unfolding ping_device
  set_ceiling path dev text = do
    bytes ← or_fail (env.parse_int text) bad_bytes
    or_fail (if is_neg bytes then none else some tt) bad_bytes
    run_store path (set_device_quota dev.id bytes)
    λ s. (if dev.push_endpoint == "" then (done tt, s) else ping_device dev s)
    print (ceiling_set dev.id bytes)

  abbrev pub ceiling_of : Run → String → Device → List String → Step (Unit {0})
  ceiling_of run path dev [] = show_ceiling run path dev
  ceiling_of run path dev (text ∷ rest) = set_ceiling path dev text

  -- runAdminDeviceQuota
  unfoldable pub run_admin_device_quota : Run → List String → Step (Unit {0})
  unfolding show_ceiling set_ceiling flag_or_env
  run_admin_device_quota run args = do
    flags ← or_fail (env.parse args) exited
    id ← or_fail (first_arg flags) usage
    opened ← open_store (db_path flags)
    dev ← read_store (db_path flags) (λ db. get_device db id)
    ceiling_of run (db_path flags) dev (elim flags.args [ [] ↦ [] | first ∷ rest ↦ rest ])

  -- runAdminAccountCreate; as JSON the line has the same account and token.
  unfoldable pub run_admin_account_create : Run → List String → Step (Unit {0})
  unfolding flag_or_env
  run_admin_account_create run args = do
    flags ← or_fail (env.parse args) exited
    opened ← open_store (db_path flags)
    acc ← run_store (db_path flags) (
        create_account (or_default (flags.text "quota") "standard")
          (or_default (flags.number "quota-bytes") (pos 0))
          (or_default (flags.text "admin-mode") admin_mode_flat) run.now run.random)
    inv ← run_store (db_path flags) (
        create_invitation env.sha256 acc.id
          (or_default (flags.number "ttl") (pos (15 * 60 * second))) role_admin run.token
          run.random' run.now)
    print (account_created acc.id acc.admin_mode run.token)

  -- runAdmin
  unfoldable pub run_admin : Run → List String → Step (Unit {0})
  unfolding run_admin_account_create run_admin_device_quota run_admin_device_promote
  run_admin run [] = fail usage
  run_admin run (a ∷ []) = fail usage
  run_admin run (a ∷ b ∷ args) =
      if a == "account" && b == "create"
      then run_admin_account_create run args
      else if a == "device" && b == "quota"
      then run_admin_device_quota run args
      else if a == "device" && b == "promote"
      then run_admin_device_promote args
      else fail usage
