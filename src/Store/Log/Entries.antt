-- ===== src/Store/Log/Entries.antt =====
-- What each command does to the table of the statements.
use sund.Prelude.{ℕ, suc, ◌≡◌, refl, sym, subst, ap, ◌∙◌, [], ◌∷◌, String, Bytes, arith}
use sund.Store.Tables.{Db, Statement, Result, ok}
use sund.Store.Devices.{touch_last_seen, update_push_endpoint, consume}
use sund.Store.Roles.{kill_device, write_role}
use sund.Store.Queues.{retire_queue}
use sund.Store.Messages.{insert_message, drain_messages, delete_messages, purge_expired}
use sund.Store.Statements.{log_statement, append_statement, last_seq}
use sund.Store.Commands.{Command, after, execute}
use sund.Store.Shapes.{
  after_induction, create_account_commits, create_invitation_commits, revoke_invitation_commits,
  register_device_commits, revoke_device_commits, set_device_role_commits, promote_device_commits,
  create_queue_commits, bind_sender_key_commits, append_message_commits, set_device_quota_commits,
  set_queue_quota_commits, append_statement_commits, set_bundle_commits,
}

-- From `db` to `db'` the statements stay, or one is logged.
pub data Entry (db db' : Db) : Type 0 where
  silent : db'.statements ≡ db.statements → Entry db db'
  logs :
      (s : Statement)
      → db' ≡ log_statement s db
      → s.seq ≡ suc (last_seq s.account_id db.statements)
      → Entry db db'

pub next_number :
    (db : Db) {db' : Db} {s : Statement} (account : String) (blob : Bytes) (now : ℕ)
    → append_statement account blob now db ≡ ok (s, db')
    → (s.seq ≡ suc (last_seq account db.statements)) × (s.account_id ≡ account)
unfolding append_statement
next_number db account blob now e = ground arith

module _ (db : Db) where
  keeps :
      {A : Type 0} (r : Result (A × Db))
      → ((a : A) (db' : Db) → r ≡ ok (a, db') → Entry db db')
      → Entry db (after db r)
  keeps r k = after_induction (Entry db) db r (silent refl) k

  -- A method whose commit leaves the messages alone.
  untouched :
      {A : Type 0} (r : Result (A × Db)) (shape : A → Db → Db)
      → ((a : A) (db' : Db) → r ≡ ok (a, db') → db' ≡ shape a db')
      → ((a : A) (db' : Db) → (shape a db').statements ≡ db.statements)
      → Entry db (after db r)
  untouched r shape e f = keeps r λ a db' h. subst (Entry db) (sym (e a db' h)) (silent (f a db'))

module _ (sha256 : Bytes → Bytes) where
  pub execute-Entry : (c : Command) (db : Db) → Entry db (execute sha256 c db)
  unfolding execute consume touch_last_seen update_push_endpoint retire_queue drain_messages
      purge_expired delete_messages insert_message write_role kill_device
  execute-Entry (Command.creates_account class bytes mode now random) db =
      untouched db _ _ (λ a db' e. create_account_commits db class bytes mode now random e)
        (λ a db'. refl)
  execute-Entry (Command.invites account ttl role token random now) db =
      untouched db _ _
        (λ i db' e. create_invitation_commits db sha256 account ttl role token random now e)
        (λ a db'. refl)
  execute-Entry (Command.uninvites account id) db =
      untouched db _ _ (λ b db' e. revoke_invitation_commits db account id e) (λ a db'. refl)
  execute-Entry (Command.registers token key endpoint capabilities random now) db =
      untouched db _ _
        (λ d db' e. register_device_commits db sha256 token key endpoint capabilities random now e)
        (λ a db'. refl)
  execute-Entry (Command.touches id now) db = silent refl
  execute-Entry (Command.sets_endpoint id endpoint) db = silent refl
  execute-Entry (Command.revokes caller id) db =
      keeps db _
        λ u db' e. subst (Entry db) (sym (revoke_device_commits db caller id e)) (silent refl)
  execute-Entry (Command.sets_role account id role) db =
      untouched db _ _ (λ u db' e. set_device_role_commits db account id role e) (λ a db'. refl)
  execute-Entry (Command.promotes id) db =
      untouched db _ _ (λ u db' e. promote_device_commits db id e) (λ a db'. refl)
  execute-Entry (Command.creates_queue owner key random random' now) db =
      untouched db _ _ (λ q db' e. create_queue_commits db owner key random random' now e)
        (λ a db'. refl)
  execute-Entry (Command.binds sender key) db =
      untouched db _ _ (λ b db' e. bind_sender_key_commits db sender key e) (λ a db'. refl)
  execute-Entry (Command.retires id) db = silent refl
  execute-Entry (Command.appends id payload ttl random now) db =
      untouched db _ _ (λ m db' e. append_message_commits db id payload ttl random now e)
        (λ a db'. refl)
  execute-Entry (Command.drains id now) db = silent refl
  execute-Entry (Command.deletes id []) db = silent refl
  execute-Entry (Command.deletes id (i ∷ ids)) db = silent refl
  execute-Entry (Command.purges now) db = silent refl
  execute-Entry (Command.caps_device id bytes) db =
      untouched db _ _ (λ u db' e. set_device_quota_commits db id bytes e) (λ a db'. refl)
  execute-Entry (Command.caps_queue id bytes) db =
      untouched db _ _ (λ u db' e. set_queue_quota_commits db id bytes e) (λ a db'. refl)
  execute-Entry (Command.states account blob now) db = keeps db _ λ s db' e.
      let (f, g) = next_number db account blob now e in
      logs s (append_statement_commits db account blob now e)
        (f ∙ ap (λ a. suc (last_seq a db.statements)) (sym g))
  execute-Entry (Command.sets_bundle id blob now) db =
      untouched db _ _ (λ u db' e. set_bundle_commits db id blob now e) (λ a db'. refl)
