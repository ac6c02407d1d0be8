-- ===== src/Store/LastAdmin/Demotion.antt =====
-- The last-admin rule of SetDeviceRole and PromoteDevice.
use sund.Prelude.{
  ◌<◌, ◌≤◌, ◌≡◌, ◌≢◌, sym, subst, ◌⊎◌, inl, inr, true, false, ◌&&◌, some, none, String, ◌==◌, arith,
  if◌then◌else◌, eq_iff, Bool-cases, Option-cases,
}
use sund.Sql.{find_row}
use sund.Sql.Laws.{find_row-holds}
use sund.Sql.Keys.{Holds}
use sund.Sql.Unique.{count_le-update, find_row_unique}
use sund.Store.Tables.{Db, Device, ok, device_at, role_admin, role_member}
use sund.Store.Roles.{is_live_in, assert_not_last_admin, write_role, set_device_role}
use sund.Store.Shapes.{set_device_role_commits}
use sund.Store.Keyed.{IsKeyed}
use sund.Store.LastAdmin.{
  is_admin_of, live_admins, others-le-write, admins-le-others, assert_passes,
}

module _ (db : Db) where
  -- A promotion takes no admin away.
  pub admins-le-promote :
      (id account : String)
      → live_admins db account ≤ live_admins (write_role id role_admin db) account
  unfolding live_admins write_role
  admins-le-promote id account =
      count_le-update (is_admin_of account) (is_admin_of account) _ _ still db.devices
    where
      still :
          (d : Device)
          → is_admin_of account d ≡ true
          → is_admin_of account (if d.id == id then record d { role = role_admin } else d) ≡ true
      still d h = elim (Bool-cases (d.id == id)) [ inl e ↦ rw e (ground arith) | inr e ↦ rw e h ]

module _ (db : Db) {db' : Db} {u : Unit {0}} (account id role : String) where
  target_found :
      set_device_role account id role db ≡ ok (u, db')
      → find_row (is_live_in account id) db.devices ≢ none
  unfolding set_device_role
  target_found e = ground arith

  role_known :
      set_device_role account id role db ≡ ok (u, db') → (role ≡ role_admin) ⊎ (role ≡ role_member)
  unfolding set_device_role
  role_known e = ground (arith, eq_iff role role_admin, eq_iff role role_member)

  checked_demotion :
      (d : Device)
      → set_device_role account id role db ≡ ok (u, db')
      → find_row (is_live_in account id) db.devices ≡ some d
      → (d.role == role_admin) ≡ true
      → role ≡ role_member
      → assert_not_last_admin db account id false ≡ ok tt
  unfolding set_device_role
  checked_demotion d e f a r = ground (arith, eq_iff role role_member)

module _ (db : Db) (id account other : String) (d : Device) (v : IsKeyed db) where
  -- The device that SetDeviceRole demotes is the one with the id.
  found_by_id : find_row (is_live_in account id) db.devices ≡ some d → device_at db id ≡ some d
  found_by_id =
      find_row_unique (λ x. x.id == id) (is_live_in account id) (λ x h. ground arith) db.devices d
        (v.devices id)

  demote_target :
      find_row (is_live_in account id) db.devices ≡ some d
      → ((d.role == role_admin) ≡ true → assert_not_last_admin db account id false ≡ ok tt)
      → 0 < live_admins db other
      → 0 < live_admins (write_role id role_member db) other
  demote_target f pass h = elim (Bool-cases (d.id == id && is_admin_of other d)) [
    | inl e ↦
        let same : account ≡ other = cc (
          (eq_iff d.account_id other).0 (ground arith),
          (eq_iff d.account_id account).0
              (ground (arith, find_row-holds (is_live_in account id) db.devices d f)),
        ) in
        elim (assert_passes db id account false (pass (ground arith))) [
          | inl n ↦
              subst (λ a. 0 < live_admins (write_role id role_member db) a) same
                (omega (arith, n, others-le-write db id account role_member))
          | inr n ↦ cc n.0
        ]
    | inr e ↦ omega (
      arith,
      others-le-write db id other role_member,
      admins-le-others db id other v (
          subst (Holds (λ x. (x.id == id && is_admin_of other x) ≡ false)) (sym (found_by_id f)) e),
    )
  ]

-- No role change takes an account's last admin: every account that had one keeps one.
pub set_device_role-admins :
    (db : Db) {db' : Db} {u : Unit {0}} (account id role other : String)
    → IsKeyed db
    → set_device_role account id role db ≡ ok (u, db')
    → 0 < live_admins db other
    → 0 < live_admins db' other
set_device_role-admins db {db'} account id role other v e h =
    subst (λ x. 0 < live_admins x other) (sym (set_device_role_commits db account id role e))
      (elim (role_known db account id role e) [
        | inl r ↦
            subst (λ x. 0 < live_admins (write_role id x db) other) (sym r)
              (omega (arith, admins-le-promote db id other))
        | inr r ↦ elim (Option-cases (find_row (is_live_in account id) db.devices)) [
          | inl f ↦ absurd (target_found db account id role e f)
          | inr (d, f) ↦
              subst (λ x. 0 < live_admins (write_role id x db) other) (sym r)
                (demote_target db id account other d v f
                  (λ a. checked_demotion db account id role d e f a r) h)
        ]
      ])
