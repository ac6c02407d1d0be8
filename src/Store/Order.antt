-- ===== src/Store/Order.antt =====
-- The order of the messages: AUTOINCREMENT, and what a drain returns.
mod Changes
pub use Changes.{Change, stays, loses, gains, removes, execute-Change, next_seq}
use sund.Prelude.{
  ℕ, suc, ◌≤◌, ◌<◌, ◌≡◌, refl, ap, sym, subst, ◌∙◌, List, [], ◌∷◌, ◌++◌, Bool, true, false, String,
  ◌==◌, Bytes, ℤ, arith, All, All-append, leb, ◌≢◌, eq_iff, ne→eq_false, ltb, if◌then◌else◌, ◌&&◌,
}
use sund.Sql.{select, order_by, delete_rows}
use sund.Sql.Laws.{
  All-delete_rows, select-append, select-append_other, select-delete_both, select-delete_rows,
}
use sund.Sql.Ascending.{
  Ascending, Ascending-delete_rows, Ascending-insert, Ascending-select, order_by-Ascending, All-map,
}
use sund.Store.Tables.{Db, Message, Result, ok, empty_db, format}
use sund.Store.Devices.{touch_last_seen, update_push_endpoint, consume}
use sund.Store.Roles.{kill_device, write_role}
use sund.Store.Queues.{retire_queue}
use sund.Store.Messages.{
  in_queue, insert_message, append_message, drain_messages, purge_queue, delete_messages,
  purge_expired, by_seq,
}
use sund.Store.Statements.{log_statement}
use sund.Store.Commands
use sund.Store.Commands.{Command, after, execute, run}
use sund.Store.Shapes.{
  after_induction, create_account_commits, create_invitation_commits, revoke_invitation_commits,
  register_device_commits, revoke_device_commits, set_device_role_commits, promote_device_commits,
  create_queue_commits, bind_sender_key_commits, append_message_commits, set_device_quota_commits,
  set_queue_quota_commits, append_statement_commits, set_bundle_commits,
}

-- The messages stand in the order of their numbers, and none is above the counter.
pub record IsOrdered (db : Db) : Type 0 where
  pub ascending : Ascending (λ m. m.seq) 0 db.messages
  pub counted : All (λ m. m.seq ≤ db.message_seq) db.messages

-- The messages of a queue, oldest first.
unfoldable pub mailbox : Db → String → List Message
mailbox db recipient_id = select (in_queue recipient_id) db.messages

module _ (db : Db) (v : IsOrdered db) where
  pub same_messages :
      (db' : Db) → db'.messages ≡ db.messages → db'.message_seq ≡ db.message_seq → IsOrdered db'
  same_messages db' e f = record {
    ascending = subst (Ascending (λ m. m.seq) 0) (sym e) v.ascending;
    counted =
        subst (λ n. All (λ m. m.seq ≤ n) db'.messages) (sym f)
          (subst (All (λ m. m.seq ≤ db.message_seq)) (sym e) v.counted);
  }

  deleted :
      (db' : Db) (p : Message → Bool)
      → db'.messages ≡ delete_rows p db.messages
      → db'.message_seq ≡ db.message_seq
      → IsOrdered db'
  deleted db' p e f = record {
    ascending =
        subst (Ascending (λ m. m.seq) 0) (sym e)
          (Ascending-delete_rows (λ m. m.seq) p 0 db.messages v.ascending);
    counted =
        subst (λ n. All (λ m. m.seq ≤ n) db'.messages) (sym f)
          (subst (All (λ m. m.seq ≤ db.message_seq)) (sym e)
            (All-delete_rows (λ m. m.seq ≤ db.message_seq) p db.messages v.counted));
  }

  appended : (m : Message) → m.seq ≡ suc db.message_seq → IsOrdered (insert_message m db)
  unfolding insert_message
  appended m e = record {
    ascending =
        Ascending-insert (λ n. n.seq) 0 db.message_seq db.messages m v.ascending v.counted
          (omega arith) (omega arith);
    counted =
        All-append (λ n. n.seq ≤ m.seq) db.messages (m ∷ [])
          (All-map (λ n. n.seq ≤ db.message_seq) (λ n. n.seq ≤ m.seq) (λ n h. omega arith)
            db.messages v.counted)
          (omega arith);
  }

  Change-IsOrdered : (p : Message → Bool) (db' : Db) → Change p db db' → IsOrdered db'
  Change-IsOrdered p db' (stays e f) = same_messages db' e f
  Change-IsOrdered p db' (loses e f) = deleted db' p e f
  Change-IsOrdered p db' (gains m e f) = subst IsOrdered (sym e) (appended m f)

pub empty_db-IsOrdered : IsOrdered empty_db
empty_db-IsOrdered = record { ascending = tt; counted = tt }

module _ (sha256 : Bytes → Bytes) where
  -- In a history of any commands, the messages keep standing in the order of their numbers, all
  -- different, with the counter at or above each of them.
  pub run-IsOrdered : (cs : List Command) (db : Db) → IsOrdered db → IsOrdered (run sha256 cs db)
  unfolding run
  run-IsOrdered [] db v = v
  run-IsOrdered (c ∷ cs) db v =
      run-IsOrdered cs _ (Change-IsOrdered db v (removes db c) _ (execute-Change sha256 c db))

pub append_message-IsOrdered :
    (id : String) (payload : Bytes) (ttl : ℤ) (random : Bytes) (now : ℕ) (db : Db) {db' : Db}
    {m : Message}
    → IsOrdered db
    → append_message id payload ttl random now db ≡ ok (m, db')
    → IsOrdered db'
append_message-IsOrdered id payload ttl random now db v e =
    subst IsOrdered (sym (append_message_commits db id payload ttl random now e))
      (appended db v _ (next_seq db id payload ttl random now e).0)

module _ (id : String) where
  mailbox-insert :
      (m : Message) (db : Db)
      → m.queue_id ≡ id
      → mailbox (insert_message m db) id ≡ mailbox db id ++ m ∷ []
  unfolding mailbox insert_message select
  mailbox-insert m db e =
      ground (arith, eq_iff m.queue_id id, select-append (in_queue id) db.messages (m ∷ []))

  mailbox-insert_other :
      (m : Message) (db : Db) (other : String)
      → m.queue_id ≡ id
      → other ≢ id
      → mailbox (insert_message m db) other ≡ mailbox db other
  unfolding mailbox insert_message select
  mailbox-insert_other m db other e h =
      select-append_other (in_queue other) db.messages m
        (ground (arith, eq_iff m.queue_id id, eq_iff m.queue_id other, h))

  -- The deletions of a drain.
  mailbox-purge :
      (now : ℕ) (db : Db)
      → mailbox (purge_queue id now db) id ≡ delete_rows (λ m. leb m.expires now) (mailbox db id)
  unfolding mailbox purge_queue
  mailbox-purge now db = select-delete_both (in_queue id) (λ m. leb m.expires now) db.messages

  mailbox-purge_other :
      (now : ℕ) (db : Db) (other : String)
      → other ≢ id
      → mailbox (purge_queue id now db) other ≡ mailbox db other
  unfolding mailbox purge_queue
  mailbox-purge_other now db other h =
      select-delete_rows (in_queue other) (λ m. in_queue id m && leb m.expires now)
        (λ m e. ground (arith, eq_iff m.queue_id id, eq_iff m.queue_id other, h)) db.messages

  mailbox-sorted : (db : Db) → IsOrdered db → order_by by_seq (mailbox db id) ≡ mailbox db id
  unfolding mailbox
  mailbox-sorted db v =
      order_by-Ascending (λ m. m.seq) 0 _
        (Ascending-select (λ m. m.seq) (in_queue id) 0 db.messages v.ascending)

-- A message that AppendMessage stores goes to the end of its queue, with a number above that of
-- every message, and no other queue changes.
pub append_message-last :
    (id : String) (payload : Bytes) (ttl : ℤ) (random : Bytes) (now : ℕ) (db : Db) {db' : Db}
    {m : Message}
    → IsOrdered db
    → append_message id payload ttl random now db ≡ ok (m, db')
    → (mailbox db' id ≡ mailbox db id ++ m ∷ [])
      × ((other : String) → other ≢ id → mailbox db' other ≡ mailbox db other)
      × All (λ n. n.seq < m.seq) db.messages
append_message-last id payload ttl random now db v e =
    let (f, g) = next_seq db id payload ttl random now e in
    rw (append_message_commits db id payload ttl random now e) (
      mailbox-insert id _ db g,
      λ other h. mailbox-insert_other id _ db other g h,
      All-map (λ n. n.seq ≤ db.message_seq) _ (λ n h. omega arith) db.messages v.counted,
    )

-- DrainMessages returns the messages of the queue that have not expired by `now`, each once, in
-- the order in which they were sent; it leaves exactly these in the queue, and no other queue
-- changes.
pub drain_messages-in_order :
    (id : String) (now : ℕ) (db : Db)
    → IsOrdered db
    → ((drain_messages id now db).0 ≡ delete_rows (λ m. leb m.expires (format now)) (mailbox db id))
      × (mailbox (drain_messages id now db).1 id ≡ (drain_messages id now db).0)
      × ((other : String)
          → other ≢ id
          → mailbox (drain_messages id now db).1 other ≡ mailbox db other)
unfolding drain_messages mailbox
drain_messages-in_order id now db v =
    let sorted = mailbox-sorted id (purge_queue id (format now) db) (deleted db v _ _ refl refl) in
    (
      sorted ∙ mailbox-purge id (format now) db,
      sym sorted,
      λ other h. mailbox-purge_other id (format now) db other h,
    )
