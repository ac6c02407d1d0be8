-- ===== src/Store/Invitations.antt =====
-- internal/store/store.go: CreateInvitation, ListInvitations, RevokeInvitation.
use sund.Prelude.{
  ℕ, Bool, true, false, not, ◌&&◌, ◌||◌, none, some, List, [], ◌∷◌, ◌++◌, String, ◌==◌, Bytes,
  codes, hex, ℤ, ltb, nat_eq, if◌then◌else◌,
}
use Prim.Native.String.{compare as compare_text}
use text.Mathlib.Text.{is_lt}
use sund.Sql.{select, update, count, has_row, order_by}
use sund.Store.Tables.{
  Account, Invitation, Tx, ok, err, bad_argument, constraint, device_not_found, new_id, account_at,
  format, add_time, admin_mode_managed, role_admin, role_member,
}

-- The role that an invitation is stored with: "" is a member, and in a flat account every role is
-- the admin's.
unfoldable pub granted_role : String → String → String
granted_role mode grants_role =
    if mode == admin_mode_managed
    then (if grants_role == "" then role_member else grants_role)
    else role_admin

abbrev pub is_role : String → Bool
is_role r = r == role_admin || r == role_member

-- `sha256` is the hash of crypto/sha256.
module _ (sha256 : Bytes → Bytes) where
  unfoldable pub hash_token : String → String
  hash_token token = hex (sha256 (codes token))

  -- CreateInvitation, with the token and the id's bytes that it draws and the clock.
  unfoldable pub create_invitation : String → ℤ → String → String → Bytes → ℕ → Tx Invitation
  create_invitation account_id ttl grants_role token random now db =
      let id = new_id "inv_" random in
      let hash = hash_token token in
      let row : Account → Invitation = λ a. record {
        token_hash = hash;
        id = id;
        account_id = account_id;
        created = format now;
        expires = format (add_time now ttl);
        consumed = false;
        revoked = false;
        grants_role = granted_role a.admin_mode grants_role;
      } in
      if not (grants_role == "" || is_role grants_role)
      then err bad_argument
      else elim (account_at db account_id) [
        | none ↦ err device_not_found
        | some a ↦
            if has_row (λ i. i.token_hash == hash) db.invitations
            then err constraint
            else ok (row a, record db { invitations = db.invitations ++ row a ∷ [] })
      ]

-- The invitation can still be used or revoked.
abbrev pub is_unused : Invitation → Bool
is_unused i = not i.consumed && not i.revoked

abbrev pub is_outstanding : String → ℕ → Invitation → Bool
is_outstanding account_id now i = i.account_id == account_id && is_unused i && ltb now i.expires

-- ORDER BY created, id
abbrev pub before_by_age : ℕ → String → ℕ → String → Bool
before_by_age t i u j = ltb t u || (nat_eq t u && is_lt (compare_text i j))

-- ListInvitations
unfoldable pub list_invitations : String → ℕ → Tx (List Invitation)
list_invitations account_id now db = ok (
  order_by (λ i j. before_by_age i.created i.id j.created j.id)
      (select (is_outstanding account_id (format now)) db.invitations),
  db,
)

abbrev pub is_revocable : String → String → Invitation → Bool
is_revocable account_id id i = i.id == id && i.account_id == account_id && is_unused i

-- RevokeInvitation
unfoldable pub revoke_invitation : String → String → Tx Bool
revoke_invitation account_id id db = ok (
  nat_eq (count (is_revocable account_id id) db.invitations) 1,
  record db {
    invitations =
        update (is_revocable account_id id) (λ i. record i { revoked = true }) db.invitations;
  },
)
