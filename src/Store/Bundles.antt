-- ===== src/Store/Bundles.antt =====
-- internal/store/bundle.go: SetBundle, GetBundle.
use sund.Prelude.{ℕ, Bool, not, none, some, [], ◌∷◌, ◌++◌, String, ◌==◌, Bytes, if◌then◌else◌}
use sund.Sql.{find_row, update, has_row}
use sund.Store.Tables.{Db, Bundle, Tx, Result, ok, err, constraint, bundle_not_found, format}

abbrev pub bundle_of : String → Bundle → Bool
bundle_of device_id b = b.device_id == device_id

-- SetBundle: INSERT ... ON CONFLICT(device_id) DO UPDATE, with the clock.
unfoldable pub set_bundle : String → Bytes → ℕ → Tx (Unit {0})
set_bundle device_id blob now db =
    let row : Bundle = record { device_id = device_id; blob = blob; updated = format now } in
    if not (has_row (λ d. d.id == device_id) db.devices)
    then err constraint
    else if has_row (bundle_of device_id) db.bundles
    then ok (
      tt,
      record db {
        bundles =
            update (bundle_of device_id) (λ b. record b { blob = blob; updated = format now })
              db.bundles;
      },
    )
    else ok (tt, record db { bundles = db.bundles ++ row ∷ [] })

-- GetBundle
unfoldable pub get_bundle : Db → String → Result (Bytes × ℕ)
get_bundle db device_id = elim (find_row (bundle_of device_id) db.bundles) [
  | none ↦ err bundle_not_found
  | some b ↦ ok (b.blob, b.updated)
]
