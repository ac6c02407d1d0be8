-- ===== src/Store/Messages.antt =====
-- internal/store/queue.go: AppendMessage, DrainMessages, DeleteMessages, PurgeExpired.
use sund.Prelude.{
  ℕ, suc, ◌+◌, Bool, false, not, ◌&&◌, ◌||◌, Option, none, some, List, [], ◌∷◌, ◌++◌, String, ◌==◌,
  Bytes, ℤ, is_pos, pos, negsuc, ltb, leb, length, if◌then◌else◌,
}
use sund.Sql.{select, delete_rows, count, has_row, total, order_by}
use sund.Store.Tables.{
  Db, Account, Queue, Message, Device, Tx, ok, err, constraint, queue_not_found, quota_exceeded,
  new_id, queue_at, device_at, account_at, format, add_time,
}

abbrev pub size : Message → ℕ
size m = length m.payload

-- The message has not expired at the second `now`.
abbrev pub is_current : ℕ → Message → Bool
is_current now m = ltb now m.expires

abbrev pub in_queue : String → Message → Bool
in_queue recipient_id m = m.queue_id == recipient_id

-- JOIN queues q ON m.queue_id = q.recipient_id WHERE q.owner_device = device_id. A queue's
-- recipient id is its primary key, so the join has one row at most for a message.
abbrev pub owned_by : Db → String → Message → Bool
owned_by db device_id m = elim (queue_at db m.queue_id) [
  | none ↦ false
  | some q ↦ q.owner_device == device_id
]

-- ... JOIN devices d ON q.owner_device = d.id WHERE d.account_id = account_id
abbrev pub in_account : Db → String → Message → Bool
in_account db account_id m = elim (queue_at db m.queue_id) [
  | none ↦ false
  | some q ↦ elim (device_at db q.owner_device) [
    | none ↦ false
    | some d ↦ d.account_id == account_id
  ]
]

-- The three sums that AppendMessage compares with the ceilings.
unfoldable pub queue_used : Db → String → ℕ → ℕ
queue_used db recipient_id now =
    total size (λ m. in_queue recipient_id m && is_current now m) db.messages

unfoldable pub device_used : Db → String → ℕ → ℕ
device_used db device_id now =
    total size (λ m. owned_by db device_id m && is_current now m) db.messages

unfoldable pub account_used : Db → String → ℕ → ℕ
account_used db account_id now =
    total size (λ m. in_account db account_id m && is_current now m) db.messages

-- `quota > 0` and `used+size > quota`
abbrev pub exceeds : ℤ → ℕ → Bool
exceeds quota n = is_pos quota && not (elim quota [ pos q ↦ leb n q | negsuc _ ↦ false ])

-- What the first SELECT of AppendMessage joins: the queue, its owner and the owner's account.
unfoldable pub resolve : Db → String → Option (Queue × Device × Account)
resolve db recipient_id = elim (queue_at db recipient_id) [
  | none ↦ none
  | some q ↦ elim (device_at db q.owner_device) [
    | none ↦ none
    | some d ↦ elim (account_at db d.account_id) [ none ↦ none | some a ↦ some (q, d, a) ]
  ]
]

-- The ceilings, narrowest first.
unfoldable pub over_quota : Db → Queue → Device → Account → ℕ → ℕ → Bool
over_quota db q d a now n =
    exceeds q.quota_bytes (queue_used db q.recipient_id now + n)
    || exceeds d.quota_bytes (device_used db d.id now + n)
    || exceeds a.quota_bytes (account_used db a.id now + n)

-- The INSERT INTO messages, with the next AUTOINCREMENT number.
unfoldable pub insert_message : Message → Db → Db
insert_message m db = record db { messages = db.messages ++ m ∷ []; message_seq = m.seq }

-- AppendMessage, with the random bytes of the id and the clock. `ttl` is in nanoseconds.
unfoldable pub append_message : String → Bytes → ℤ → Bytes → ℕ → Tx Message
unfolding insert_message
append_message recipient_id payload ttl random now db =
    let id = new_id "msg_" random in
    let m : Message = record {
      seq = suc db.message_seq;
      id = id;
      queue_id = recipient_id;
      payload = payload;
      received_at = format now;
      expires = format (add_time now ttl);
    } in
    elim (resolve db recipient_id) [
      | none ↦ err queue_not_found
      | some (q, d, a) ↦
          if over_quota db q d a (format now) (length payload)
          then err quota_exceeded
          else if has_row (λ n. n.id == id) db.messages
          then err constraint
          else ok (m, insert_message m db)
    ]

abbrev pub by_seq : Message → Message → Bool
by_seq m n = leb m.seq n.seq

-- The DELETE of DrainMessages.
unfoldable pub purge_queue : String → ℕ → Db → Db
purge_queue recipient_id now db = record db {
  messages = delete_rows (λ m. in_queue recipient_id m && leb m.expires now) db.messages;
}

-- DrainMessages: the messages it returns, and the database.
unfoldable pub drain_messages : String → ℕ → Db → List Message × Db
unfolding purge_queue
drain_messages recipient_id now db =
    let db' = purge_queue recipient_id (format now) db in
    (order_by by_seq (select (in_queue recipient_id) db'.messages), db')

-- id IN (ids)
unfoldable pub is_in : String → List String → Bool
is_in id [] = false
is_in id (i ∷ ids) = i == id || is_in id ids

abbrev pub is_acked : String → List String → Message → Bool
is_acked recipient_id ids m = in_queue recipient_id m && is_in m.id ids

-- DeleteMessages: the number deleted, and the database. No ids: no statement is sent.
unfoldable pub delete_messages : String → List String → Db → ℕ × Db
delete_messages recipient_id [] db = (0, db)
delete_messages recipient_id (i ∷ ids) db = (
  count (is_acked recipient_id (i ∷ ids)) db.messages,
  record db { messages = delete_rows (is_acked recipient_id (i ∷ ids)) db.messages },
)

-- PurgeExpired
unfoldable pub purge_expired : ℕ → Db → ℕ × Db
purge_expired now db = (
  count (λ m. leb m.expires (format now)) db.messages,
  record db { messages = delete_rows (λ m. leb m.expires (format now)) db.messages },
)
