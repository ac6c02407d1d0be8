-- ===== src/Store/Order/Changes.antt =====
-- What each command does to the table of the messages.
use sund.Prelude.{
  ℕ, suc, ◌≡◌, refl, sym, subst, Bool, false, ◌&&◌, [], ◌∷◌, String, Bytes, ℤ, arith, leb,
}
use sund.Sql.{delete_rows}
use sund.Store.Tables.{Db, Message, Result, ok, format}
use sund.Store.Devices.{touch_last_seen, update_push_endpoint, consume}
use sund.Store.Roles.{kill_device, write_role, in_queue_of}
use sund.Store.Queues.{retire_queue}
use sund.Store.Messages.{
  in_queue, is_acked, insert_message, append_message, drain_messages, delete_messages,
  purge_expired,
}
use sund.Store.Statements.{log_statement}
use sund.Store.Commands.{Command, after, execute}
use sund.Store.Shapes.{
  after_induction, create_account_commits, create_invitation_commits, revoke_invitation_commits,
  register_device_commits, revoke_device_commits, set_device_role_commits, promote_device_commits,
  create_queue_commits, bind_sender_key_commits, append_message_commits, set_device_quota_commits,
  set_queue_quota_commits, append_statement_commits, set_bundle_commits,
}

-- The messages that a command deletes, if it succeeds.
abbrev pub removes : Db → Command → Message → Bool
removes db (Command.revokes caller id) m = in_queue_of db id m
removes db (Command.retires id) m = in_queue id m
removes db (Command.drains id now) m = in_queue id m && leb m.expires (format now)
removes db (Command.deletes id ids) m = is_acked id ids m
removes db (Command.purges now) m = leb m.expires (format now)
removes db _ m = false

-- From `db` to `db'` the messages stay, or lose those that fit `p`, or gain one at the end.
pub data Change (p : Message → Bool) (db db' : Db) : Type 0 where
  stays : db'.messages ≡ db.messages → db'.message_seq ≡ db.message_seq → Change p db db'
  loses :
      db'.messages ≡ delete_rows p db.messages → db'.message_seq ≡ db.message_seq → Change p db db'
  gains : (m : Message) → db' ≡ insert_message m db → m.seq ≡ suc db.message_seq → Change p db db'

pub next_seq :
    (db : Db) {db' : Db} {m : Message} (id : String) (payload : Bytes) (ttl : ℤ) (random : Bytes)
    (now : ℕ)
    → append_message id payload ttl random now db ≡ ok (m, db')
    → (m.seq ≡ suc db.message_seq) × (m.queue_id ≡ id)
unfolding append_message
next_seq db id payload ttl random now e = ground arith

module _ (db : Db) (p : Message → Bool) where
  keeps :
      {A : Type 0} (r : Result (A × Db))
      → ((a : A) (db' : Db) → r ≡ ok (a, db') → Change p db db')
      → Change p db (after db r)
  keeps r k = after_induction (Change p db) db r (stays refl refl) k

  -- A method whose commit leaves the messages alone.
  untouched :
      {A : Type 0} (r : Result (A × Db)) (shape : A → Db → Db)
      → ((a : A) (db' : Db) → r ≡ ok (a, db') → db' ≡ shape a db')
      → ((a : A) (db' : Db) → (shape a db').messages ≡ db.messages)
      → ((a : A) (db' : Db) → (shape a db').message_seq ≡ db.message_seq)
      → Change p db (after db r)
  untouched r shape e f g =
      keeps r λ a db' h. subst (Change p db) (sym (e a db' h)) (stays (f a db') (g a db'))

module _ (sha256 : Bytes → Bytes) where
  pub execute-Change : (c : Command) (db : Db) → Change (removes db c) db (execute sha256 c db)
  unfolding execute consume touch_last_seen update_push_endpoint retire_queue drain_messages
      purge_expired delete_messages log_statement write_role kill_device
  execute-Change (Command.creates_account class bytes mode now random) db =
      untouched db _ _ _ (λ a db' e. create_account_commits db class bytes mode now random e)
        (λ a db'. refl) (λ a db'. refl)
  execute-Change (Command.invites account ttl role token random now) db =
      untouched db _ _ _
        (λ i db' e. create_invitation_commits db sha256 account ttl role token random now e)
        (λ a db'. refl) (λ a db'. refl)
  execute-Change (Command.uninvites account id) db =
      untouched db _ _ _ (λ b db' e. revoke_invitation_commits db account id e) (λ a db'. refl)
        (λ a db'. refl)
  execute-Change (Command.registers token key endpoint capabilities random now) db =
      untouched db _ _ _
        (λ d db' e. register_device_commits db sha256 token key endpoint capabilities random now e)
        (λ a db'. refl) (λ a db'. refl)
  execute-Change (Command.touches id now) db = stays refl refl
  execute-Change (Command.sets_endpoint id endpoint) db = stays refl refl
  execute-Change (Command.revokes caller id) db = keeps db _ _ λ u db' e.
      subst (Change (in_queue_of db id) db) (sym (revoke_device_commits db caller id e))
        (loses refl refl)
  execute-Change (Command.sets_role account id role) db =
      untouched db _ _ _ (λ u db' e. set_device_role_commits db account id role e) (λ a db'. refl)
        (λ a db'. refl)
  execute-Change (Command.promotes id) db =
      untouched db _ _ _ (λ u db' e. promote_device_commits db id e) (λ a db'. refl) (λ a db'. refl)
  execute-Change (Command.creates_queue owner key random random' now) db =
      untouched db _ _ _ (λ q db' e. create_queue_commits db owner key random random' now e)
        (λ a db'. refl) (λ a db'. refl)
  execute-Change (Command.binds sender key) db =
      untouched db _ _ _ (λ b db' e. bind_sender_key_commits db sender key e) (λ a db'. refl)
        (λ a db'. refl)
  execute-Change (Command.retires id) db = loses refl refl
  execute-Change (Command.appends id payload ttl random now) db = keeps db _ _ λ m db' e.
      gains m (append_message_commits db id payload ttl random now e)
        (next_seq db id payload ttl random now e).0
  execute-Change (Command.drains id now) db = loses refl refl
  execute-Change (Command.deletes id []) db = stays refl refl
  execute-Change (Command.deletes id (i ∷ ids)) db = loses refl refl
  execute-Change (Command.purges now) db = loses refl refl
  execute-Change (Command.caps_device id bytes) db =
      untouched db _ _ _ (λ u db' e. set_device_quota_commits db id bytes e) (λ a db'. refl)
        (λ a db'. refl)
  execute-Change (Command.caps_queue id bytes) db =
      untouched db _ _ _ (λ u db' e. set_queue_quota_commits db id bytes e) (λ a db'. refl)
        (λ a db'. refl)
  execute-Change (Command.states account blob now) db =
      untouched db _ _ _ (λ s db' e. append_statement_commits db account blob now e) (λ a db'. refl)
        (λ a db'. refl)
  execute-Change (Command.sets_bundle id blob now) db =
      untouched db _ _ _ (λ u db' e. set_bundle_commits db id blob now e) (λ a db'. refl)
        (λ a db'. refl)
