-- ===== src/Store/Keyed.antt =====
-- The keys of the schema over histories of commands.
mod Writes
pub use Writes.{IsKeyed}
use sund.Prelude.{
  ℕ, ◌≡◌, refl, sym, subst, List, [], ◌∷◌, ◌++◌, String, ◌==◌, Bytes, Bool, false, ◌||◌, ℤ, arith,
}
use sund.Sql.{count, has_row, update, delete_rows}
use sund.Sql.Unique.{IsUnique, IsUnique-insert, IsUnique-update, IsUnique-delete_rows, has_row-or}
use sund.Store.Tables.{Db, Account, Invitation, Device, Queue, Message, Result, ok, empty_db}
use sund.Store.Accounts.{create_account}
use sund.Store.Invitations.{create_invitation}
use sund.Store.Devices.{register_device, consume, touch_last_seen, update_push_endpoint}
use sund.Store.Roles.{kill_device, write_role}
use sund.Store.Queues.{create_queue, retire_queue}
use sund.Store.Messages.{
  append_message, insert_message, drain_messages, delete_messages, purge_expired,
}
use sund.Store.Statements.{log_statement}
use sund.Store.Commands.{Command, after, execute, run}
use sund.Store.Shapes.{
  after_induction, create_account_commits, create_invitation_commits, revoke_invitation_commits,
  register_device_commits, revoke_device_commits, set_device_role_commits, promote_device_commits,
  create_queue_commits, bind_sender_key_commits, append_message_commits, set_device_quota_commits,
  set_queue_quota_commits, append_statement_commits, set_bundle_commits,
}
use sund.Store.Keyed.Writes.{
  new_account, new_invitation, new_device, new_queue, new_message, kept, update_devices,
  update_queues, update_invitations, delete_messages-IsKeyed, insert_device-IsKeyed,
  insert_queue-IsKeyed, kill_device-IsKeyed, retire_queue-IsKeyed,
}

module _ (sha256 : Bytes → Bytes) where
  pub execute-IsKeyed : (c : Command) (db : Db) → IsKeyed db → IsKeyed (execute sha256 c db)
  unfolding execute consume touch_last_seen update_push_endpoint drain_messages purge_expired
      delete_messages insert_message log_statement write_role
  execute-IsKeyed (Command.creates_account class bytes mode now random) db v =
      kept db v _ _ (λ a db' e. create_account_commits db class bytes mode now random e)
        (λ a db' e. record {
          invitations = v.invitations;
          devices = v.devices;
          recipients = v.recipients;
          senders = v.senders;
          messages = v.messages;
          accounts =
              IsUnique-insert (λ b. b.id) db.accounts a v.accounts
                (new_account db class bytes mode now random e);
        })
  execute-IsKeyed (Command.invites account ttl role token random now) db v =
      kept db v _ _
        (λ i db' e. create_invitation_commits db sha256 account ttl role token random now e)
        (λ i db' e. record {
          accounts = v.accounts;
          devices = v.devices;
          recipients = v.recipients;
          senders = v.senders;
          messages = v.messages;
          invitations =
              IsUnique-insert (λ j. j.token_hash) db.invitations i v.invitations
                (new_invitation db sha256 account ttl role token random now e);
        })
  execute-IsKeyed (Command.uninvites account id) db v =
      kept db v _ _ (λ b db' e. revoke_invitation_commits db account id e)
        (λ b db' e. update_invitations db v _ _ (λ i. refl))
  execute-IsKeyed (Command.registers token key endpoint capabilities random now) db v =
      kept db v _ _
        (λ d db' e. register_device_commits db sha256 token key endpoint capabilities random now e)
        (λ d db' e.
          insert_device-IsKeyed _ (update_invitations db v _ _ (λ i. refl)) d
            (new_device db sha256 token key endpoint capabilities random now e))
  execute-IsKeyed (Command.touches id now) db v = update_devices db v _ _ (λ d. refl)
  execute-IsKeyed (Command.sets_endpoint id endpoint) db v = update_devices db v _ _ (λ d. refl)
  execute-IsKeyed (Command.revokes caller id) db v =
      kept db v _ _ (λ u db' e. revoke_device_commits db caller id e)
        (λ u db' e. kill_device-IsKeyed db id v)
  execute-IsKeyed (Command.sets_role account id role) db v =
      kept db v _ _ (λ u db' e. set_device_role_commits db account id role e)
        (λ u db' e. update_devices db v _ _ (λ d. refl))
  execute-IsKeyed (Command.promotes id) db v =
      kept db v _ _ (λ u db' e. promote_device_commits db id e)
        (λ u db' e. update_devices db v _ _ (λ d. refl))
  execute-IsKeyed (Command.creates_queue owner key random random' now) db v =
      kept db v _ _ (λ q db' e. create_queue_commits db owner key random random' now e)
        (λ q db' e. insert_queue-IsKeyed db v q (new_queue db owner key random random' now e))
  execute-IsKeyed (Command.binds sender key) db v =
      kept db v _ _ (λ b db' e. bind_sender_key_commits db sender key e)
        (λ b db' e. update_queues db v _ _ (λ q. refl) (λ q. refl))
  execute-IsKeyed (Command.retires id) db v = retire_queue-IsKeyed db id v
  execute-IsKeyed (Command.appends id payload ttl random now) db v =
      kept db v _ _ (λ m db' e. append_message_commits db id payload ttl random now e)
        (λ m db' e. record {
          accounts = v.accounts;
          invitations = v.invitations;
          devices = v.devices;
          recipients = v.recipients;
          senders = v.senders;
          messages =
              IsUnique-insert (λ n. n.id) db.messages m v.messages
                (new_message db id payload ttl random now e);
        })
  execute-IsKeyed (Command.drains id now) db v = record {
    accounts = v.accounts;
    invitations = v.invitations;
    devices = v.devices;
    recipients = v.recipients;
    senders = v.senders;
    messages = (delete_messages-IsKeyed db v _).messages;
  }
  execute-IsKeyed (Command.deletes id []) db v = v
  execute-IsKeyed (Command.deletes id (i ∷ ids)) db v = delete_messages-IsKeyed db v _
  execute-IsKeyed (Command.purges now) db v = delete_messages-IsKeyed db v _
  execute-IsKeyed (Command.caps_device id bytes) db v =
      kept db v _ _ (λ u db' e. set_device_quota_commits db id bytes e)
        (λ u db' e. update_devices db v _ _ (λ d. refl))
  execute-IsKeyed (Command.caps_queue id bytes) db v =
      kept db v _ _ (λ u db' e. set_queue_quota_commits db id bytes e)
        (λ u db' e. update_queues db v _ _ (λ q. refl) (λ q. refl))
  execute-IsKeyed (Command.states account blob now) db v =
      kept db v _ _ (λ s db' e. append_statement_commits db account blob now e)
        (λ s db' e. record {
          invitations = v.invitations;
          devices = v.devices;
          recipients = v.recipients;
          senders = v.senders;
          messages = v.messages;
          accounts = v.accounts;
        })
  execute-IsKeyed (Command.sets_bundle id blob now) db v =
      kept db v _ _ (λ u db' e. set_bundle_commits db id blob now e)
        (λ u db' e. record {
          invitations = v.invitations;
          devices = v.devices;
          recipients = v.recipients;
          senders = v.senders;
          messages = v.messages;
          accounts = v.accounts;
        })

  -- In every history from a database whose keys are unique, they stay unique.
  pub run-IsKeyed : (cs : List Command) (db : Db) → IsKeyed db → IsKeyed (run sha256 cs db)
  unfolding run
  run-IsKeyed [] db v = v
  run-IsKeyed (c ∷ cs) db v = run-IsKeyed cs _ (execute-IsKeyed c db v)

pub empty_db-IsKeyed : IsKeyed empty_db
unfolding count
empty_db-IsKeyed = record {
  accounts = λ k. omega arith;
  invitations = λ k. omega arith;
  devices = λ k. omega arith;
  recipients = λ k. omega arith;
  senders = λ k. omega arith;
  messages = λ k. omega arith;
}
