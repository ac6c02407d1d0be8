-- ===== src/Store/LastAdmin.antt =====
-- The last-admin rule: what RevokeDevice, SetDeviceRole and the other methods leave of an account's
-- admins.
pub mod Demotion
pub mod Peers
pub mod Mutual
use sund.Prelude.{
  ℕ, suc, ◌+◌, ◌≤◌, ◌<◌, ◌≡◌, ◌≢◌, refl, sym, subst, ap, ◌⊎◌, inl, inr, Bool, true, false, ◌&&◌,
  not, Option, some, none, List, [], ◌∷◌, ◌++◌, String, ◌==◌, Bytes, ℤ, arith, if◌then◌else◌, ltb,
  eq_iff, text_cases, Bool-cases, Option-cases,
}
use sund.Sql.{find_row, update, count}
use sund.Sql.Laws.{count-append, count-update, find_row-holds}
use sund.Sql.Keys.{Holds}
use sund.Sql.Unique.{count_le-update, update-count_le, count_split, count_none, find_row_unique}
use sund.Store.Tables.{
  Db, Device, Result, ok, err, last_admin, device_at, account_at, role_admin, role_member,
}
use sund.Store.Roles.{
  is_other_live, is_other_admin, assert_not_last_admin, kill_device, may_revoke_other,
  revoke_device, write_role, set_device_role, promote_device, is_live_in,
}
use sund.Store.Shapes.{revoke_device_commits}
use sund.Store.Keyed.{IsKeyed}

abbrev pub is_live_of : String → Device → Bool
is_live_of account d = d.account_id == account && not d.revoked

abbrev pub is_admin_of : String → Device → Bool
is_admin_of account d = is_live_of account d && d.role == role_admin

-- The devices of an account that are not revoked, and the admins among them.
unfoldable pub live_devices : Db → String → ℕ
live_devices db account = count (is_live_of account) db.devices

unfoldable pub live_admins : Db → String → ℕ
live_admins db account = count (is_admin_of account) db.devices

module _ (db : Db) (id account : String) where
  -- The admins but one are still admins after a write to that one.
  others-le-kill :
      count (is_other_admin account id) db.devices ≤ live_admins (kill_device id db) account
  unfolding live_admins kill_device
  others-le-kill = count_le-update _ _ _ _ (λ d h. ground arith) db.devices

  pub others-le-write :
      (role : String)
      → count (is_other_admin account id) db.devices ≤ live_admins (write_role id role db) account
  unfolding live_admins write_role
  others-le-write role = count_le-update _ _ _ _ (λ d h. ground arith) db.devices

  pub live-kill-le :
      live_devices (kill_device id db) account ≤ count (is_other_live account id) db.devices
  unfolding live_devices kill_device
  live-kill-le = update-count_le _ _ _ _ (λ d h. ground arith) db.devices

  -- If the row of `id` is no live admin of the account, all admins are others.
  pub admins-le-others :
      IsKeyed db
      → Holds (λ d. (d.id == id && is_admin_of account d) ≡ false) (device_at db id)
      → live_admins db account ≤ count (is_other_admin account id) db.devices
  unfolding live_admins
  admins-le-others v h = omega (
    arith,
    count_split (λ d. d.id == id) (is_admin_of account) (is_other_admin account id)
        (λ d n a. ground arith) db.devices,
    count_none (λ d. d.id == id) (λ d. d.id == id && is_admin_of account d) (λ d e. ground arith)
        db.devices (v.devices id) h,
  )

  -- Where the check passes, an admin other than the device is left, or no device other than it.
  pub assert_passes :
      (allow : Bool)
      → assert_not_last_admin db account id allow ≡ ok tt
      → (0 < count (is_other_admin account id) db.devices)
        ⊎ ((allow ≡ true) × (count (is_other_live account id) db.devices ≡ 0))
  unfolding assert_not_last_admin
  assert_passes allow h = ground arith

module _ (db : Db) {db' : Db} {u : Unit {0}} where
  pub target_exists :
      (caller id : String)
      → caller ≢ id
      → revoke_device caller id db ≡ ok (u, db')
      → device_at db id ≢ none
  unfolding revoke_device
  target_exists caller id ne e = ground (arith, eq_iff caller id)

  checked_target :
      (caller id : String) (d : Device)
      → caller ≢ id
      → revoke_device caller id db ≡ ok (u, db')
      → device_at db id ≡ some d
      → d.revoked ≡ false
      → (d.role == role_admin) ≡ true
      → assert_not_last_admin db d.account_id id true ≡ ok tt
  unfolding revoke_device
  checked_target caller id d ne e f r a = ground (arith, eq_iff caller id)

module _ (db : Db) (caller id account : String) (d : Device) (v : IsKeyed db) where
  -- Where the killed device was an admin of the account, and no other device of it was left.
  abbrev Emptied : Type 0
  Emptied = (d.account_id ≡ account) × (count (is_other_live account id) db.devices ≡ 0)

  kill_admin :
      d.account_id ≡ account
      → (0 < count (is_other_admin account id) db.devices)
        ⊎ ((true ≡ true) × (count (is_other_live account id) db.devices ≡ 0))
      → (0 < live_admins (kill_device id db) account) ⊎ Emptied
  kill_admin e (inl h) = inl (omega (arith, others-le-kill db id account))
  kill_admin e (inr h) = inr (e, h.1)

  kill_target :
      device_at db id ≡ some d
      → (d.revoked ≡ false
          → (d.role == role_admin) ≡ true
          → assert_not_last_admin db d.account_id id true ≡ ok tt)
      → 0 < live_admins db account
      → (0 < live_admins (kill_device id db) account) ⊎ Emptied
  kill_target f pass h = elim (Bool-cases (d.id == id && is_admin_of account d)) [
    | inl e ↦
        let same : d.account_id ≡ account = (eq_iff d.account_id account).0 (ground arith) in
        kill_admin same (
          assert_passes db id account true (
            subst (λ a. assert_not_last_admin db a id true ≡ ok tt) same
              (pass (ground arith) (ground arith))))
    | inr e ↦ inl (
        omega (
          arith,
          others-le-kill db id account,
          admins-le-others db id account v
              (subst (Holds (λ x. (x.id == id && is_admin_of account x) ≡ false)) (sym f) e),
        ))
  ]

  -- The revocation of another device, for one account.
  pub revoke_target :
      {db' : Db} {u : Unit {0}}
      → caller ≢ id
      → revoke_device caller id db ≡ ok (u, db')
      → device_at db id ≡ some d
      → 0 < live_admins db account
      → (0 < live_admins db' account) ⊎ Emptied
  revoke_target ne e f h =
      subst (λ x. (0 < live_admins x account) ⊎ Emptied)
        (sym (revoke_device_commits db caller id e))
        (kill_target f (checked_target db caller id d ne e f) h)

-- An account never loses its last admin to a revocation of another device: if it had an admin, it
-- has one afterwards, or it has no device left that is not revoked.
pub revoke_other-admins :
    (db : Db) {db' : Db} {u : Unit {0}} (caller id account : String)
    → IsKeyed db
    → caller ≢ id
    → revoke_device caller id db ≡ ok (u, db')
    → 0 < live_admins db account
    → (0 < live_admins db' account) ⊎ (live_devices db' account ≡ 0)
revoke_other-admins db {db'} caller id account v ne e h = elim (Option-cases (device_at db id)) [
  | inl f ↦ absurd (target_exists db caller id ne e f)
  | inr (d, f) ↦ elim (revoke_target db caller id account d v ne e f h) [
    | inl n ↦ inl n
    | inr n ↦ inr (
        subst (λ x. live_devices x account ≡ 0) (sym (revoke_device_commits db caller id e))
          (omega (arith, n.1, live-kill-le db id account)))
  ]
]
