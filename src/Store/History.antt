-- ===== src/Store/History.antt =====
-- internal/store: revocations, retirements, consumed invitations and bound sender keys over
-- histories of commands.
use sund.Prelude.{◌≡◌, refl, sym, subst, List, [], ◌∷◌, ◌++◌, Bytes}
use sund.Store.Tables.{Db, Result, ok}
use sund.Store.Devices.{consume, touch_last_seen, update_push_endpoint}
use sund.Store.Queues.{retire_queue}
use sund.Store.Messages.{insert_message, drain_messages, delete_messages, purge_expired}
use sund.Store.Statements.{log_statement}
use sund.Store.Commands.{Command, after, execute, run}
use sund.Store.Shapes.{
  after_induction, create_account_commits, create_invitation_commits, revoke_invitation_commits,
  register_device_commits, revoke_device_commits, set_device_role_commits, promote_device_commits,
  create_queue_commits, bind_sender_key_commits, append_message_commits, set_device_quota_commits,
  set_queue_quota_commits, append_statement_commits, set_bundle_commits,
}
use sund.Store.Forward.{
  Forward, Forward-refl, Forward-trans, update_devices, update_queues, update_invitations,
  insert_devices, insert_queues, insert_invitations, other_tables, kill_device-Forward,
  write_role-Forward, consume-Forward, bound_not_open,
}

module _ (db : Db) where
  -- A method moves forward if what it commits does.
  by_shape :
      {A : Type 0} (r : Result (A × Db)) (shape : A → Db → Db)
      → ((a : A) (db' : Db) → r ≡ ok (a, db') → db' ≡ shape a db')
      → ((a : A) (db' : Db) → Forward db (shape a db'))
      → Forward db (after db r)
  by_shape r shape e f =
      after_induction (Forward db) db r (Forward-refl db)
        λ a db' p. subst (Forward db) (sym (e a db' p)) (f a db')

module _ (sha256 : Bytes → Bytes) where
  pub execute-Forward : (c : Command) (db : Db) → Forward db (execute sha256 c db)
  unfolding execute consume touch_last_seen update_push_endpoint retire_queue drain_messages
      purge_expired delete_messages insert_message log_statement
  execute-Forward (Command.creates_account class bytes mode now random) db =
      by_shape db _ _ (λ a db' e. create_account_commits db class bytes mode now random e)
        (λ a db'. other_tables db {db' = record db { accounts = db.accounts ++ a ∷ [] }} refl)
  execute-Forward (Command.invites account ttl role token random now) db =
      by_shape db _ _
        (λ i db' e. create_invitation_commits db sha256 account ttl role token random now e)
        (λ i db'. insert_invitations db (i ∷ []))
  execute-Forward (Command.uninvites account id) db =
      by_shape db _ _ (λ b db' e. revoke_invitation_commits db account id e)
        (λ b db'. update_invitations db _ _ (λ i. refl) (λ i h. h))
  execute-Forward (Command.registers token key endpoint capabilities random now) db =
      by_shape db _ _
        (λ d db' e. register_device_commits db sha256 token key endpoint capabilities random now e)
        (λ d db'. Forward-trans (consume-Forward db _ _) (insert_devices _ (d ∷ [])))
  execute-Forward (Command.touches id now) db = update_devices db _ _ (λ d. refl) (λ d h. h)
  execute-Forward (Command.sets_endpoint id endpoint) db =
      update_devices db _ _ (λ d. refl) (λ d h. h)
  execute-Forward (Command.revokes caller id) db =
      by_shape db _ _ (λ u db' e. revoke_device_commits db caller id e)
        (λ u db'. kill_device-Forward db id)
  execute-Forward (Command.sets_role account id role) db =
      by_shape db _ _ (λ u db' e. set_device_role_commits db account id role e)
        (λ u db'. write_role-Forward db id role)
  execute-Forward (Command.promotes id) db =
      by_shape db _ _ (λ u db' e. promote_device_commits db id e)
        (λ u db'. write_role-Forward db id _)
  execute-Forward (Command.creates_queue owner key random random' now) db =
      by_shape db _ _ (λ q db' e. create_queue_commits db owner key random random' now e)
        (λ q db'. insert_queues db (q ∷ []))
  execute-Forward (Command.binds sender key) db =
      by_shape db _ _ (λ b db' e. bind_sender_key_commits db sender key e)
        (λ b db'.
          update_queues db _ _ (λ q. refl) (λ q. refl) (λ q h. h)
            (λ q k. bound_not_open sender q k key))
  execute-Forward (Command.retires id) db =
      Forward-trans (other_tables db {db' = record db { messages = _ }} refl)
        (update_queues _ _ _ (λ q. refl) (λ q. refl) (λ q h. refl) (λ q k _ h. h))
  execute-Forward (Command.appends id payload ttl random now) db =
      by_shape db _ _ (λ m db' e. append_message_commits db id payload ttl random now e)
        (λ m db'. other_tables db refl)
  execute-Forward (Command.drains id now) db = other_tables db refl
  execute-Forward (Command.deletes id []) db = other_tables db refl
  execute-Forward (Command.deletes id (i ∷ ids)) db = other_tables db refl
  execute-Forward (Command.purges now) db = other_tables db refl
  execute-Forward (Command.caps_device id bytes) db =
      by_shape db _ _ (λ u db' e. set_device_quota_commits db id bytes e)
        (λ u db'. update_devices db _ _ (λ d. refl) (λ d h. h))
  execute-Forward (Command.caps_queue id bytes) db =
      by_shape db _ _ (λ u db' e. set_queue_quota_commits db id bytes e)
        (λ u db'. update_queues db _ _ (λ q. refl) (λ q. refl) (λ q h. h) (λ q k _ h. h))
  execute-Forward (Command.states account blob now) db =
      by_shape db _ _ (λ s db' e. append_statement_commits db account blob now e)
        (λ s db'. other_tables db refl)
  execute-Forward (Command.sets_bundle id blob now) db =
      by_shape db _ _ (λ u db' e. set_bundle_commits db id blob now e)
        (λ u db'. other_tables db {db' = record db { bundles = db'.bundles }} refl)

  -- Whatever commands a history holds, a revoked device stays revoked, a retired queue stays
  -- retired, a bound queue keeps its sender key, and a consumed invitation stays consumed.
  pub run-Forward : (cs : List Command) (db : Db) → Forward db (run sha256 cs db)
  unfolding run
  run-Forward [] db = Forward-refl db
  run-Forward (c ∷ cs) db =
      Forward-trans (execute-Forward c db) (run-Forward cs (execute sha256 c db))
