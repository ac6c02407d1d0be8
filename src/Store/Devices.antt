-- ===== src/Store/Devices.antt =====
-- internal/store/store.go: RegisterDevice, GetDevice, ListDevices, TouchLastSeen,
-- UpdatePushEndpoint.
use sund.Prelude.{
  ℕ, Bool, true, false, not, ◌&&◌, none, some, List, [], ◌∷◌, ◌++◌, String, ◌==◌, Bytes, pos, ltb,
  nat_eq, length, if◌then◌else◌,
}
use sund.Sql.{select, find_row, update, count, has_row, order_by}
use sund.Store.Tables.{
  Db, Account, Invitation, Device, Tx, Result, ok, err, bad_argument, constraint, no_rows,
  invalid_invitation, device_not_found, new_id, account_at, device_at, format, public_key_size,
  admin_mode_managed, role_admin,
}
use sund.Store.Invitations.{is_unused, before_by_age, hash_token}

-- The condition of the UPDATE that consumes an invitation.
abbrev pub is_usable : String → ℕ → Invitation → Bool
is_usable hash now i = i.token_hash == hash && is_unused i && ltb now i.expires

-- The role of a new device: the grant counts only in a managed account that has had a device.
unfoldable pub registered_role : Account → Invitation → List Device → String
registered_role a i devices =
    if a.admin_mode == admin_mode_managed
    then (if nat_eq (count (λ d. d.account_id == i.account_id) devices) 0
        then role_admin
        else i.grants_role)
    else role_admin

-- The INSERT INTO devices: its account must be there, and its id must be new.
unfoldable pub insert_device : Device → Tx Device
insert_device d db =
    if has_row (λ e. e.id == d.id) db.devices
    then err constraint
    else ok (d, record db { devices = db.devices ++ d ∷ [] })

-- From the consumed invitation on: the role, and the new row.
unfoldable pub enroll : Invitation → Bytes → String → String → Bytes → ℕ → Tx Device
unfolding insert_device
enroll i pub_key push_endpoint capabilities random now db = elim (account_at db i.account_id) [
  | none ↦ err no_rows
  | some a ↦
      insert_device
        (record {
          id = new_id "dev_" random;
          account_id = i.account_id;
          public_key = pub_key;
          push_endpoint = push_endpoint;
          capabilities = capabilities;
          created = format now;
          last_seen = format now;
          revoked = false;
          quota_bytes = pos 0;
          role = registered_role a i db.devices;
        })
        db
]

-- The UPDATE that consumes an invitation.
unfoldable pub consume : String → ℕ → Db → Db
consume hash now db = record db {
  invitations = update (is_usable hash now) (λ j. record j { consumed = true }) db.invitations;
}

-- RegisterDevice, with the random bytes of the id and the clock. A transaction: what `consume`
-- wrote is kept only if the device is enrolled.
unfoldable pub register_device :
    (Bytes → Bytes) → String → Bytes → String → String → Bytes → ℕ → Tx Device
unfolding consume enroll
register_device sha256 token pub_key push_endpoint capabilities random now db =
    let hash = hash_token sha256 token in
    let db' = consume hash (format now) db in
    if not (nat_eq (length pub_key) public_key_size)
    then err bad_argument
    else if not (nat_eq (count (is_usable hash (format now)) db.invitations) 1)
    then err invalid_invitation
    else elim (find_row (λ i. i.token_hash == hash) db'.invitations) [
      | none ↦ err no_rows
      | some i ↦ enroll i pub_key push_endpoint capabilities random now db'
    ]

-- GetDevice
unfoldable pub get_device : Db → String → Result Device
get_device db id = elim (device_at db id) [ none ↦ err device_not_found | some d ↦ ok d ]

-- ListDevices
unfoldable pub list_devices : Db → String → List Device
list_devices db account_id =
    order_by (λ d e. before_by_age d.created d.id e.created e.id)
      (select (λ d. d.account_id == account_id) db.devices)

-- TouchLastSeen
unfoldable pub touch_last_seen : String → ℕ → Db → Db
touch_last_seen id now db = record db {
  devices = update (λ d. d.id == id) (λ d. record d { last_seen = format now }) db.devices;
}

-- UpdatePushEndpoint
unfoldable pub update_push_endpoint : String → String → Db → Db
update_push_endpoint id endpoint db = record db {
  devices = update (λ d. d.id == id) (λ d. record d { push_endpoint = endpoint }) db.devices;
}
