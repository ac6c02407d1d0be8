-- ===== src/Store/Commands.antt =====
-- Every method of the store that writes, as a command, so that a history of the database is a list
-- of commands. Each method is one transaction; concurrent requests interleave such commands.
use sund.Prelude.{ℕ, List, [], ◌∷◌, String, Bytes, ℤ}
use sund.Store.Tables.{Db, Result, ok, err}
use sund.Store.Accounts.{create_account}
use sund.Store.Invitations.{create_invitation, revoke_invitation}
use sund.Store.Devices.{register_device, touch_last_seen, update_push_endpoint}
use sund.Store.Roles.{revoke_device, set_device_role, promote_device}
use sund.Store.Queues.{create_queue, bind_sender_key, retire_queue}
use sund.Store.Messages.{append_message, drain_messages, delete_messages, purge_expired}
use sund.Store.Quotas.{set_device_quota, set_queue_quota}
use sund.Store.Statements.{append_statement}
use sund.Store.Bundles.{set_bundle}

pub data Command : Type 0 where
  creates_account : String → ℤ → String → ℕ → Bytes → Command
  invites : String → ℤ → String → String → Bytes → ℕ → Command
  uninvites : String → String → Command
  registers : String → Bytes → String → String → Bytes → ℕ → Command
  touches : String → ℕ → Command
  sets_endpoint : String → String → Command
  revokes : String → String → Command
  sets_role : String → String → String → Command
  promotes : String → Command
  creates_queue : String → Bytes → Bytes → Bytes → ℕ → Command
  binds : String → Bytes → Command
  retires : String → Command
  appends : String → Bytes → ℤ → Bytes → ℕ → Command
  drains : String → ℕ → Command
  deletes : String → List String → Command
  purges : ℕ → Command
  caps_device : String → ℤ → Command
  caps_queue : String → ℤ → Command
  states : String → Bytes → ℕ → Command
  sets_bundle : String → Bytes → ℕ → Command

-- A failed method leaves the database as it was.
abbrev pub after : {A : Type 0} → Db → Result (A × Db) → Db
after db (ok (_, db')) = db'
after db (err _) = db

module _ (sha256 : Bytes → Bytes) where
  unfoldable pub execute : Command → Db → Db
  execute (creates_account class bytes mode now random) db =
      after db (create_account class bytes mode now random db)
  execute (invites account ttl role token random now) db =
      after db (create_invitation sha256 account ttl role token random now db)
  execute (uninvites account id) db = after db (revoke_invitation account id db)
  execute (registers token key endpoint capabilities random now) db =
      after db (register_device sha256 token key endpoint capabilities random now db)
  execute (touches id now) db = touch_last_seen id now db
  execute (sets_endpoint id endpoint) db = update_push_endpoint id endpoint db
  execute (revokes caller id) db = after db (revoke_device caller id db)
  execute (sets_role account id role) db = after db (set_device_role account id role db)
  execute (promotes id) db = after db (promote_device id db)
  execute (creates_queue owner key random random' now) db =
      after db (create_queue owner key random random' now db)
  execute (binds sender key) db = after db (bind_sender_key sender key db)
  execute (retires id) db = retire_queue id db
  execute (appends id payload ttl random now) db =
      after db (append_message id payload ttl random now db)
  execute (drains id now) db = (drain_messages id now db).1
  execute (deletes id ids) db = (delete_messages id ids db).1
  execute (purges now) db = (purge_expired now db).1
  execute (caps_device id bytes) db = after db (set_device_quota id bytes db)
  execute (caps_queue id bytes) db = after db (set_queue_quota id bytes db)
  execute (states account blob now) db = after db (append_statement account blob now db)
  execute (sets_bundle id blob now) db = after db (set_bundle id blob now db)

  unfoldable pub run : List Command → Db → Db
  unfolding execute
  run [] db = db
  run (c ∷ cs) db = run cs (execute c db)
