-- ===== src/Store/Records.antt =====
-- internal/store: what is read back after a write: bundles, sets of ceilings, roles.
use sund.Prelude.{
  ℕ, ◌≡◌, ◌≢◌, refl, sym, true, false, some, none, List, [], ◌∷◌, ◌++◌, String, ◌==◌, Bytes, arith,
  Option, eq_iff, eq_refl, Bool-cases, inl, inr, ap, ◌∙◌, ◌<◌,
}
use sund.Sql.{find_row, has_row, update, count}
use sund.Sql.Laws.{find_row-insert}
use sund.Sql.Keys.{Holds}
use sund.Store.Tables.{
  Db, Bundle, Device, Account, Invitation, Result, ok, err, bundle_not_found, format, account_at,
  admin_mode_managed, role_admin,
}
use sund.Store.Bundles.{bundle_of, set_bundle, get_bundle}
use sund.Store.Devices.{register_device, registered_role, consume, enroll, insert_device}
use sund.Store.Invitations.{hash_token}

-- What GetBundle makes of the row of a device.
abbrev read_row : Option Bundle → Result (Bytes × ℕ)
read_row none = err bundle_not_found
read_row (some b) = ok (b.blob, b.updated)

get_bundle-rows :
    (db : Db) (id : String) → get_bundle db id ≡ read_row (find_row (bundle_of id) db.bundles)
unfolding get_bundle
get_bundle-rows db id = ground arith

module _ (id : String) (blob : Bytes) (t : ℕ) where
  updated-found :
      (xs : List Bundle)
      → has_row (bundle_of id) xs ≡ true
      → Holds
          (λ b. (b.blob ≡ blob) × (b.updated ≡ t))
          (find_row
            (bundle_of id)
            (update (bundle_of id) (λ b. record b { blob = blob; updated = t }) xs))
  unfolding has_row find_row update
  updated-found [] h = cc
  updated-found (b ∷ xs) h = elim (Bool-cases (bundle_of id b)) [
    | inl e ↦ rw e (rw e (refl, refl))
    | inr e ↦ rw e (rw e (updated-found xs (ground arith)))
  ]

  updated-others :
      (other : String) (xs : List Bundle)
      → other ≢ id
      → find_row
          (bundle_of other)
          (update (bundle_of id) (λ b. record b { blob = blob; updated = t }) xs)
        ≡ find_row (bundle_of other) xs
  unfolding find_row update
  updated-others other [] h = refl
  updated-others other (b ∷ xs) h =
      ground (arith, updated-others other xs h, eq_iff b.device_id id, eq_iff b.device_id other, h)

  inserted-others :
      (other : String) (xs : List Bundle) (b : Bundle)
      → b.device_id ≡ id
      → other ≢ id
      → find_row (bundle_of other) (xs ++ b ∷ []) ≡ find_row (bundle_of other) xs
  unfolding find_row
  inserted-others other [] b e h =
      ground (arith, eq_iff b.device_id id, eq_iff b.device_id other, h)
  inserted-others other (x ∷ xs) b e h = ground (arith, inserted-others other xs b e h)

  read_back :
      (o : Option Bundle)
      → Holds (λ b. (b.blob ≡ blob) × (b.updated ≡ t)) o
      → read_row o ≡ ok (blob, t)
  read_back none h = absurd h
  read_back (some b) h = rw (h.0) (rw (h.1) refl)

module _ (id : String) (blob : Bytes) (now : ℕ) (db : Db) {db' : Db} {u : Unit {0}}
    (e : set_bundle id blob now db ≡ ok (u, db')) where
  replaces :
      has_row (bundle_of id) db.bundles ≡ true
      → db'.bundles
        ≡ update (bundle_of id) (λ b. record b { blob = blob; updated = format now }) db.bundles
  unfolding set_bundle
  replaces h = ground arith

  inserts :
      has_row (bundle_of id) db.bundles ≡ false
      → db'.bundles
        ≡ db.bundles ++ record { device_id = id; blob = blob; updated = format now } ∷ []
  unfolding set_bundle
  inserts h = ground arith

  -- A bundle that SetBundle stores is what GetBundle returns, with the second of the write, and the
  -- bundles of the other devices are returned as before.
  pub get_bundle-set_bundle :
      (get_bundle db' id ≡ ok (blob, format now))
      × ((other : String) → other ≢ id → get_bundle db' other ≡ get_bundle db other)
  get_bundle-set_bundle = elim (Bool-cases (has_row (bundle_of id) db.bundles)) [
    | inl h ↦ (
      found _ (replaces h)
          (read_back id blob (format now) _ (updated-found id blob (format now) db.bundles h)),
      λ other k.
          others other _ (replaces h) (updated-others id blob (format now) other db.bundles k),
    )
    | inr h ↦ (
      found _ (inserts h)
          (ap read_row (find_row-insert (bundle_of id) db.bundles _ h (eq_refl id))),
      λ other k.
          others other _ (inserts h)
            (inserted-others id blob (format now) other db.bundles _ refl k),
    )
  ]
    where
      found :
          (rows : List Bundle)
          → db'.bundles ≡ rows
          → read_row (find_row (bundle_of id) rows) ≡ ok (blob, format now)
          → get_bundle db' id ≡ ok (blob, format now)
      found rows f h =
          get_bundle-rows db' id ∙ ap (λ bs. read_row (find_row (bundle_of id) bs)) f ∙ h

      others :
          (other : String) (rows : List Bundle)
          → db'.bundles ≡ rows
          → find_row (bundle_of other) rows ≡ find_row (bundle_of other) db.bundles
          → get_bundle db' other ≡ get_bundle db other
      others other rows f h =
          get_bundle-rows db' other
          ∙ ap (λ bs. read_row (find_row (bundle_of other) bs)) f
          ∙ ap read_row h
          ∙ sym (get_bundle-rows db other)

-- A device that registers with an account that is not managed is an admin, and so is the first
-- device of any account; a later device of a managed account has the role that its invitation
-- grants.
pub register_device-role :
    (sha256 : Bytes → Bytes) (token : String) (key : Bytes) (endpoint capabilities : String)
    (random : Bytes) (now : ℕ) (db : Db) {db' : Db} {d : Device} (a : Account) (i : Invitation)
    → register_device sha256 token key endpoint capabilities random now db ≡ ok (d, db')
    → account_at db d.account_id ≡ some a
    → find_row
        (λ j. j.token_hash == hash_token sha256 token)
        (consume (hash_token sha256 token) (format now) db).invitations
      ≡ some i
    → ((a.admin_mode ≢ admin_mode_managed) → d.role ≡ role_admin)
      × (count (λ e. e.account_id == d.account_id) db.devices ≡ 0 → d.role ≡ role_admin)
      × (a.admin_mode ≡ admin_mode_managed
          → 0 < count (λ e. e.account_id == d.account_id) db.devices
          → d.role ≡ i.grants_role)
unfolding register_device enroll insert_device consume registered_role
register_device-role sha256 token key endpoint capabilities random now db a i e f g = (
  λ h. ground (arith, eq_iff a.admin_mode admin_mode_managed),
  λ h. ground arith,
  λ h k. ground (arith, eq_iff a.admin_mode admin_mode_managed),
)
