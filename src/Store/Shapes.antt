-- ===== src/Store/Shapes.antt =====
-- The database that each method of the store commits, in terms of the row that it returns.
use sund.Prelude.{
  ℕ, ◌≡◌, ◌⊎◌, inl, inr, refl, Bool, true, some, [], ◌∷◌, ◌++◌, String, Bytes, ℤ, arith,
}
use sund.Sql.{update}
use sund.Store.Tables.{
  Db, Account, Invitation, Device, Queue, Message, Statement, Result, Error, ok, err, format,
  role_admin,
}
use sund.Store.Accounts.{create_account}
use sund.Store.Invitations.{create_invitation, hash_token, revoke_invitation, is_revocable}
use sund.Store.Devices.{register_device, consume}
use sund.Store.Roles.{revoke_device, kill_device, set_device_role, write_role, promote_device}
use sund.Store.Queues.{create_queue, bind_sender_key, is_bindable}
use sund.Store.Messages.{append_message, insert_message}
use sund.Store.Statements.{append_statement, log_statement}
use sund.Store.Bundles.{set_bundle}
use sund.Store.Quotas.{set_device_quota, set_queue_quota, is_live_device, is_live_queue}
use sund.Store.Commands.{after}

pub result_cases :
    {A : Type 0} (r : Result A) → ((x : Error) × (r ≡ err x)) ⊎ ((a : A) × (r ≡ ok a))
result_cases (ok a) = inr (a, refl)
result_cases (err x) = inl (x, refl)

-- A property of the database before a method and of each one that it commits holds after it.
pub after_induction :
    {A : Type 0} (P : Db → Type 0) (db : Db) (r : Result (A × Db))
    → P db
    → ((a : A) (db' : Db) → r ≡ ok (a, db') → P db')
    → P (after db r)
after_induction P db (ok (a, db')) same h = h a db' refl
after_induction P db (err e) same h = same

module _ (db : Db) {db' : Db} where
  pub create_account_commits :
      (class : String) (bytes : ℤ) (mode : String) (now : ℕ) (random : Bytes) {a : Account}
      → create_account class bytes mode now random db ≡ ok (a, db')
      → db' ≡ record db { accounts = db.accounts ++ a ∷ [] }
  unfolding create_account
  create_account_commits class bytes mode now random e = ground arith

  pub create_invitation_commits :
      (sha256 : Bytes → Bytes) (account : String) (ttl : ℤ) (role token : String) (random : Bytes)
      (now : ℕ) {i : Invitation}
      → create_invitation sha256 account ttl role token random now db ≡ ok (i, db')
      → db' ≡ record db { invitations = db.invitations ++ i ∷ [] }
  unfolding create_invitation
  create_invitation_commits sha256 account ttl role token random now e = ground arith

  pub register_device_commits :
      (sha256 : Bytes → Bytes) (token : String) (key : Bytes) (endpoint capabilities : String)
      (random : Bytes) (now : ℕ) {d : Device}
      → register_device sha256 token key endpoint capabilities random now db ≡ ok (d, db')
      → db' ≡ record (consume (hash_token sha256 token) (format now) db) {
        devices = db.devices ++ d ∷ [];
      }
  unfolding register_device
  register_device_commits sha256 token key endpoint capabilities random now e = ground arith

  pub revoke_device_commits :
      (caller id : String) {u : Unit {0}}
      → revoke_device caller id db ≡ ok (u, db')
      → db' ≡ kill_device id db
  unfolding revoke_device
  revoke_device_commits caller id e = ground arith

  pub set_device_role_commits :
      (account id role : String) {u : Unit {0}}
      → set_device_role account id role db ≡ ok (u, db')
      → db' ≡ write_role id role db
  unfolding set_device_role
  set_device_role_commits account id role e = ground arith

  pub create_queue_commits :
      (owner : String) (key random random' : Bytes) (now : ℕ) {q : Queue}
      → create_queue owner key random random' now db ≡ ok (q, db')
      → db' ≡ record db { queues = db.queues ++ q ∷ [] }
  unfolding create_queue
  create_queue_commits owner key random random' now e = ground arith

  pub append_message_commits :
      (id : String) (payload : Bytes) (ttl : ℤ) (random : Bytes) (now : ℕ) {m : Message}
      → append_message id payload ttl random now db ≡ ok (m, db')
      → db' ≡ insert_message m db
  unfolding append_message
  append_message_commits id payload ttl random now e = ground arith

  pub promote_device_commits :
      (id : String) {u : Unit {0}}
      → promote_device id db ≡ ok (u, db')
      → db' ≡ write_role id role_admin db
  unfolding promote_device
  promote_device_commits id e = ground arith

  pub bind_sender_key_commits :
      (sender_id : String) (key : Bytes) {b : Bool}
      → bind_sender_key sender_id key db ≡ ok (b, db')
      → db' ≡ record db {
        queues = update (is_bindable sender_id) (λ q. record q { sender_key = some key }) db.queues;
      }
  unfolding bind_sender_key
  bind_sender_key_commits sender_id key e = ground arith

  pub set_device_quota_commits :
      (id : String) (bytes : ℤ) {u : Unit {0}}
      → set_device_quota id bytes db ≡ ok (u, db')
      → db' ≡ record db {
        devices = update (is_live_device id) (λ d. record d { quota_bytes = bytes }) db.devices;
      }
  unfolding set_device_quota
  set_device_quota_commits id bytes e = ground arith

  pub set_queue_quota_commits :
      (id : String) (bytes : ℤ) {u : Unit {0}}
      → set_queue_quota id bytes db ≡ ok (u, db')
      → db' ≡ record db {
        queues = update (is_live_queue id) (λ q. record q { quota_bytes = bytes }) db.queues;
      }
  unfolding set_queue_quota
  set_queue_quota_commits id bytes e = ground arith

  pub append_statement_commits :
      (account : String) (blob : Bytes) (now : ℕ) {s : Statement}
      → append_statement account blob now db ≡ ok (s, db')
      → db' ≡ log_statement s db
  unfolding append_statement
  append_statement_commits account blob now e = ground arith

  -- SetBundle changes the table of the bundles alone.
  pub set_bundle_commits :
      (id : String) (blob : Bytes) (now : ℕ) {u : Unit {0}}
      → set_bundle id blob now db ≡ ok (u, db')
      → db' ≡ record db { bundles = db'.bundles }
  unfolding set_bundle
  set_bundle_commits id blob now e = ground arith

  pub revoke_invitation_commits :
      (account id : String) {b : Bool}
      → revoke_invitation account id db ≡ ok (b, db')
      → db' ≡ record db {
        invitations =
            update (is_revocable account id) (λ i. record i { revoked = true }) db.invitations;
      }
  unfolding revoke_invitation
  revoke_invitation_commits account id e = ground arith
