-- ===== src/Store/Accounts.antt =====
-- internal/store/store.go (CreateAccount, AccountQuotaBytes) and quota.go.
use sund.Prelude.{
  ℕ, not, ◌||◌, none, some, [], ◌∷◌, ◌++◌, String, ◌==◌, Bytes, ℤ, pos, is_pos, if◌then◌else◌, ◌^◌,
}
use sund.Sql.{has_row}
use sund.Store.Tables.{
  Account, Tx, ok, err, bad_argument, constraint, device_not_found, new_id, account_at, format,
  admin_mode_flat, admin_mode_managed,
}

abbrev pub quota_standard_bytes : ℤ
quota_standard_bytes = pos (2 ^ 26)

abbrev pub quota_large_bytes : ℤ
quota_large_bytes = pos (2 ^ 30)

-- QuotaBytesForClass
unfoldable pub quota_bytes_for_class : String → ℤ
quota_bytes_for_class class =
    if class == "standard"
    then quota_standard_bytes
    else if class == "large"
    then quota_large_bytes
    else quota_standard_bytes

-- The ceiling that CreateAccount stores.
unfoldable pub resolve_quota : String → ℤ → ℤ
resolve_quota class bytes = if is_pos bytes then bytes else quota_bytes_for_class class

-- CreateAccount, with the clock and the random bytes that it draws.
unfoldable pub create_account : String → ℤ → String → ℕ → Bytes → Tx Account
create_account quota_class quota_bytes admin_mode now random db =
    let mode = if admin_mode == "" then admin_mode_flat else admin_mode in
    let id = new_id "acc_" random in
    let account : Account = record {
      id = id;
      created = format now;
      quota = quota_class;
      status = "active";
      quota_bytes = resolve_quota quota_class quota_bytes;
      admin_mode = mode;
    } in
    if not (mode == admin_mode_flat || mode == admin_mode_managed)
    then err bad_argument
    else if has_row (λ a. a.id == id) db.accounts
    then err constraint
    else ok (account, record db { accounts = db.accounts ++ account ∷ [] })

-- AccountQuotaBytes
unfoldable pub account_quota_bytes : String → Tx ℤ
account_quota_bytes account_id db = elim (account_at db account_id) [
  | none ↦ err device_not_found
  | some a ↦ ok (a.quota_bytes, db)
]
