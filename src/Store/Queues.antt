-- ===== src/Store/Queues.antt =====
-- internal/store/queue.go: CreateQueue, GetQueueByRecipient, GetQueueBySender, BindSenderKey,
-- RetireQueue.
use sund.Prelude.{
  ℕ, Bool, true, false, not, ◌&&◌, ◌||◌, none, some, [], ◌∷◌, ◌++◌, String, ◌==◌, Bytes, pos,
  nat_eq, length, if◌then◌else◌,
}
use sund.Sql.{find_row, update, delete_rows, count, has_row}
use sund.Store.Tables.{
  Db, Queue, Tx, Result, ok, err, bad_argument, constraint, queue_not_found, new_id, queue_at,
  format, public_key_size,
}

-- The queue has no sender key yet.
abbrev pub is_open : Queue → Bool
is_open q = elim q.sender_key [ none ↦ true | some _ ↦ false ]

-- CreateQueue, with the random bytes of the two ids and the clock.
unfoldable pub create_queue : String → Bytes → Bytes → Bytes → ℕ → Tx Queue
create_queue owner_device recipient_key random random' now db =
    let recipient_id = new_id "rcp_" random in
    let sender_id = new_id "snd_" random' in
    let queue : Queue = record {
      recipient_id = recipient_id;
      sender_id = sender_id;
      owner_device = owner_device;
      recipient_key = recipient_key;
      sender_key = none;
      created = format now;
      retired = false;
      quota_bytes = pos 0;
    } in
    let taken =
      has_row (λ q. q.recipient_id == recipient_id || q.sender_id == sender_id) db.queues in
    if not (nat_eq (length recipient_key) public_key_size)
    then err bad_argument
    else if taken || not (has_row (λ d. d.id == owner_device) db.devices)
    then err constraint
    else ok (queue, record db { queues = db.queues ++ queue ∷ [] })

-- GetQueueByRecipient
unfoldable pub get_queue_by_recipient : Db → String → Result Queue
get_queue_by_recipient db id = elim (queue_at db id) [ none ↦ err queue_not_found | some q ↦ ok q ]

abbrev pub has_sender : String → Queue → Bool
has_sender id q = q.sender_id == id

-- GetQueueBySender
unfoldable pub get_queue_by_sender : Db → String → Result Queue
get_queue_by_sender db id = elim (find_row (has_sender id) db.queues) [
  | none ↦ err queue_not_found
  | some q ↦ ok q
]

abbrev pub is_bindable : String → Queue → Bool
is_bindable sender_id q = q.sender_id == sender_id && is_open q && not q.retired

-- BindSenderKey
unfoldable pub bind_sender_key : String → Bytes → Tx Bool
bind_sender_key sender_id key db =
    let n = count (is_bindable sender_id) db.queues in
    if not (nat_eq (length key) public_key_size)
    then err bad_argument
    else ok (
      nat_eq n 1,
      record db {
        queues = update (is_bindable sender_id) (λ q. record q { sender_key = some key }) db.queues;
      },
    )

-- RetireQueue
unfoldable pub retire_queue : String → Db → Db
retire_queue recipient_id db = record db {
  messages = delete_rows (λ m. m.queue_id == recipient_id) db.messages;
  queues =
      update (λ q. q.recipient_id == recipient_id) (λ q. record q { retired = true }) db.queues;
}
