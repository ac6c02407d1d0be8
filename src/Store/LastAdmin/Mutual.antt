-- ===== src/Store/LastAdmin/Mutual.antt =====
-- internal/store/store.go: RevokeDevice called by two admins on each other.
use sund.Prelude.{◌<◌, ◌≡◌, ◌≢◌, refl, sym, subst, true, false, some, String, ◌==◌, arith, eq_iff}
use sund.Sql.{count}
use sund.Sql.Laws.{find_row-holds, find_row-update}
use sund.Sql.Unique.{count_pos, count_others}
use sund.Store.Tables.{Db, Device, ok, device_at}
use sund.Store.Roles.{
  is_other_live, is_other_admin, assert_not_last_admin, kill_device, revoke_device,
}
use sund.Store.LastAdmin.{is_live_of, is_admin_of, live_devices, live-kill-le}

-- A revocation that empties the account is let through.
pub revoke_emptying :
    (db : Db) (caller id : String) (d : Device)
    → device_at db id ≡ some d
    → count (is_other_live d.account_id id) db.devices ≡ 0
    → revoke_device caller id db ≡ ok (tt, kill_device id db)
unfolding revoke_device assert_not_last_admin
revoke_emptying db caller id d f n = ground arith

-- So is one that leaves another admin.
pub revoke_leaving :
    (db : Db) (caller id : String) (d : Device)
    → device_at db id ≡ some d
    → 0 < count (is_other_admin d.account_id id) db.devices
    → revoke_device caller id db ≡ ok (tt, kill_device id db)
unfolding revoke_device assert_not_last_admin
revoke_leaving db caller id d f n = ground arith

module _ (db : Db) (a b account : String) (da db_b : Device) (ne : a ≢ b) where
  -- What is known of the first of the two admins.
  module _ (fa : device_at db a ≡ some da) where
    id_of : (da.id == a) ≡ true
    id_of = find_row-holds (λ x. x.id == a) db.devices da fa

    not_b : (da.id == b) ≡ false
    not_b = ground (arith, ne, id_of, eq_iff da.id a, eq_iff da.id b)

    -- It is untouched by the death of the second.
    survives : device_at (kill_device b db) a ≡ some da
    unfolding kill_device
    survives =
        rw
          (
            find_row-update (λ d. d.id == b) (λ d. d.id == a)
                (λ d. record d { revoked = true; push_endpoint = "" }) (λ d. refl) db.devices,
            fa,
          )
          (ground (arith, not_b))

    admin_left : is_admin_of account da ≡ true → 0 < count (is_other_admin account b) db.devices
    admin_left h = omega (
      arith,
      count_pos (λ x. x.id == a) (is_other_admin account b) db.devices da fa
          (ground (arith, h, not_b)),
    )

  -- After the first death the other admin is alone.
  alone :
      device_at db a ≡ some da
      → device_at db b ≡ some db_b
      → is_admin_of account da ≡ true
      → is_admin_of account db_b ≡ true
      → live_devices db account ≡ 2
      → count (is_other_live account a) (kill_device b db).devices ≡ 0
  unfolding live_devices
  alone fa fb ha hb two = omega (
    arith,
    two,
    count_others (λ x. x.id == b) (is_live_of account) (is_other_live account b)
        (λ x h. ground arith) (λ x h. ground arith) db.devices db_b fb (ground (arith, hb)),
    count_others (λ x. x.id == a) (is_live_of account) (is_other_live account a)
        (λ x h. ground arith) (λ x h. ground arith) (kill_device b db).devices da (survives fa)
        (ground (arith, ha)),
    live-kill-le db b account,
  )

-- Two admins of an account whose other devices are all revoked can revoke each other, one after the
-- other: both calls succeed, and no device of the account is left that is not revoked. So the rule
-- does not refuse the second of two concurrent revocations in such an account.
pub mutual_revocation :
    (db : Db) (a b account : String) (da db_b : Device)
    → a ≢ b
    → device_at db a ≡ some da
    → device_at db b ≡ some db_b
    → is_admin_of account da ≡ true
    → is_admin_of account db_b ≡ true
    → live_devices db account ≡ 2
    → (revoke_device a b db ≡ ok (tt, kill_device b db))
      × (revoke_device b a (kill_device b db) ≡ ok (tt, kill_device a (kill_device b db)))
      × (live_devices (kill_device a (kill_device b db)) account ≡ 0)
mutual_revocation db a b account da db_b ne fa fb ha hb two = (
  revoke_leaving db a b db_b fb (
      subst (λ x. 0 < count (is_other_admin x b) db.devices)
        (sym ((eq_iff db_b.account_id account).0 (ground (arith, hb))))
        (admin_left db a b account da db_b ne fa ha)),
  revoke_emptying _ b a da (survives db a b account da db_b ne fa) (
      subst (λ x. count (is_other_live x a) (kill_device b db).devices ≡ 0)
        (sym ((eq_iff da.account_id account).0 (ground (arith, ha)))) gone),
  omega (arith, gone, live-kill-le (kill_device b db) a account),
)
  where
    gone : count (is_other_live account a) (kill_device b db).devices ≡ 0
    gone = alone db a b account da db_b ne fa fb ha hb two
