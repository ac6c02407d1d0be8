-- ===== src/Store/Keyed/Writes.antt =====
-- The keys of the schema, and what each write does to them.
use sund.Prelude.{
  ℕ, ◌≡◌, refl, sym, subst, [], ◌∷◌, ◌++◌, String, ◌==◌, Bytes, Bool, false, ◌||◌, ℤ, arith,
}
use sund.Sql.{has_row, update, delete_rows}
use sund.Sql.Unique.{IsUnique, IsUnique-insert, IsUnique-update, IsUnique-delete_rows, has_row-or}
use sund.Store.Tables.{Db, Account, Invitation, Device, Queue, Message, Result, ok}
use sund.Store.Accounts.{create_account}
use sund.Store.Invitations.{create_invitation}
use sund.Store.Devices.{register_device}
use sund.Store.Roles.{kill_device}
use sund.Store.Queues.{create_queue, retire_queue}
use sund.Store.Messages.{append_message}
use sund.Store.Commands.{after}
use sund.Store.Shapes.{after_induction}

pub record IsKeyed (db : Db) : Type 0 where
  pub accounts : IsUnique (λ a. a.id) db.accounts
  pub invitations : IsUnique (λ i. i.token_hash) db.invitations
  pub devices : IsUnique (λ d. d.id) db.devices
  pub recipients : IsUnique (λ q. q.recipient_id) db.queues
  pub senders : IsUnique (λ q. q.sender_id) db.queues
  pub messages : IsUnique (λ m. m.id) db.messages

-- What the constraints of the tables refuse to insert.
module _ (db : Db) {db' : Db} where
  pub new_account :
      (class : String) (bytes : ℤ) (mode : String) (now : ℕ) (random : Bytes) {a : Account}
      → create_account class bytes mode now random db ≡ ok (a, db')
      → has_row (λ b. b.id == a.id) db.accounts ≡ false
  unfolding create_account
  new_account class bytes mode now random e = ground arith

  pub new_invitation :
      (sha256 : Bytes → Bytes) (account : String) (ttl : ℤ) (role token : String) (random : Bytes)
      (now : ℕ) {i : Invitation}
      → create_invitation sha256 account ttl role token random now db ≡ ok (i, db')
      → has_row (λ j. j.token_hash == i.token_hash) db.invitations ≡ false
  unfolding create_invitation
  new_invitation sha256 account ttl role token random now e = ground arith

  pub new_device :
      (sha256 : Bytes → Bytes) (token : String) (key : Bytes) (endpoint capabilities : String)
      (random : Bytes) (now : ℕ) {d : Device}
      → register_device sha256 token key endpoint capabilities random now db ≡ ok (d, db')
      → has_row (λ e. e.id == d.id) db.devices ≡ false
  unfolding register_device
  new_device sha256 token key endpoint capabilities random now e = ground arith

  pub new_queue :
      (owner : String) (key random random' : Bytes) (now : ℕ) {q : Queue}
      → create_queue owner key random random' now db ≡ ok (q, db')
      → has_row (λ p. p.recipient_id == q.recipient_id || p.sender_id == q.sender_id) db.queues
        ≡ false
  unfolding create_queue
  new_queue owner key random random' now e = ground arith

  pub new_message :
      (id : String) (payload : Bytes) (ttl : ℤ) (random : Bytes) (now : ℕ) {m : Message}
      → append_message id payload ttl random now db ≡ ok (m, db')
      → has_row (λ n. n.id == m.id) db.messages ≡ false
  unfolding append_message
  new_message id payload ttl random now e = ground arith

module _ (db : Db) (v : IsKeyed db) where
  pub kept :
      {A : Type 0} (r : Result (A × Db)) (shape : A → Db → Db)
      → ((a : A) (db' : Db) → r ≡ ok (a, db') → db' ≡ shape a db')
      → ((a : A) (db' : Db) → r ≡ ok (a, db') → IsKeyed (shape a db'))
      → IsKeyed (after db r)
  kept r shape e f =
      after_induction IsKeyed db r v λ a db' p. subst IsKeyed (sym (e a db' p)) (f a db' p)

  pub update_devices :
      (p : Device → Bool) (f : Device → Device)
      → ((d : Device) → (f d).id ≡ d.id)
      → IsKeyed (record db { devices = update p f db.devices })
  update_devices p f same = record {
    accounts = v.accounts;
    invitations = v.invitations;
    recipients = v.recipients;
    senders = v.senders;
    messages = v.messages;
    devices = IsUnique-update (λ d. d.id) p f same db.devices v.devices;
  }

  pub update_queues :
      (p : Queue → Bool) (f : Queue → Queue)
      → ((q : Queue) → (f q).recipient_id ≡ q.recipient_id)
      → ((q : Queue) → (f q).sender_id ≡ q.sender_id)
      → IsKeyed (record db { queues = update p f db.queues })
  update_queues p f same same' = record {
    accounts = v.accounts;
    invitations = v.invitations;
    devices = v.devices;
    messages = v.messages;
    recipients = IsUnique-update (λ q. q.recipient_id) p f same db.queues v.recipients;
    senders = IsUnique-update (λ q. q.sender_id) p f same' db.queues v.senders;
  }

  pub update_invitations :
      (p : Invitation → Bool) (f : Invitation → Invitation)
      → ((i : Invitation) → (f i).token_hash ≡ i.token_hash)
      → IsKeyed (record db { invitations = update p f db.invitations })
  update_invitations p f same = record {
    accounts = v.accounts;
    devices = v.devices;
    recipients = v.recipients;
    senders = v.senders;
    messages = v.messages;
    invitations = IsUnique-update (λ i. i.token_hash) p f same db.invitations v.invitations;
  }

  pub delete_messages-IsKeyed :
      (p : Message → Bool) → IsKeyed (record db { messages = delete_rows p db.messages })
  delete_messages-IsKeyed p = record {
    accounts = v.accounts;
    invitations = v.invitations;
    devices = v.devices;
    recipients = v.recipients;
    senders = v.senders;
    messages = IsUnique-delete_rows (λ m. m.id) p db.messages v.messages;
  }

  pub insert_device-IsKeyed :
      (d : Device)
      → has_row (λ e. e.id == d.id) db.devices ≡ false
      → IsKeyed (record db { devices = db.devices ++ d ∷ [] })
  insert_device-IsKeyed d new = record {
    accounts = v.accounts;
    invitations = v.invitations;
    recipients = v.recipients;
    senders = v.senders;
    messages = v.messages;
    devices = IsUnique-insert (λ e. e.id) db.devices d v.devices new;
  }

  pub insert_queue-IsKeyed :
      (q : Queue)
      → has_row (λ p. p.recipient_id == q.recipient_id || p.sender_id == q.sender_id) db.queues
        ≡ false
      → IsKeyed (record db { queues = db.queues ++ q ∷ [] })
  insert_queue-IsKeyed q new =
      let both =
        has_row-or (λ p. p.recipient_id == q.recipient_id) (λ p. p.sender_id == q.sender_id)
          db.queues new in
      record {
        accounts = v.accounts;
        invitations = v.invitations;
        devices = v.devices;
        messages = v.messages;
        recipients = IsUnique-insert (λ p. p.recipient_id) db.queues q v.recipients both.0;
        senders = IsUnique-insert (λ p. p.sender_id) db.queues q v.senders both.1;
      }

-- The two methods that change several tables.
pub kill_device-IsKeyed : (db : Db) (id : String) → IsKeyed db → IsKeyed (kill_device id db)
unfolding kill_device
kill_device-IsKeyed db id v = record {
  accounts = v.accounts;
  invitations = v.invitations;
  devices = (update_devices db v _ _ (λ d. refl)).devices;
  recipients = (update_queues db v _ _ (λ q. refl) (λ q. refl)).recipients;
  senders = (update_queues db v _ _ (λ q. refl) (λ q. refl)).senders;
  messages = (delete_messages-IsKeyed db v _).messages;
}

pub retire_queue-IsKeyed : (db : Db) (id : String) → IsKeyed db → IsKeyed (retire_queue id db)
unfolding retire_queue
retire_queue-IsKeyed db id v = record {
  accounts = v.accounts;
  invitations = v.invitations;
  devices = v.devices;
  recipients = (update_queues db v _ _ (λ q. refl) (λ q. refl)).recipients;
  senders = (update_queues db v _ _ (λ q. refl) (λ q. refl)).senders;
  messages = (delete_messages-IsKeyed db v _).messages;
}
