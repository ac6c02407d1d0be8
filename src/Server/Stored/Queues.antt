-- ===== src/Server/Stored/Queues.antt =====
-- The handlers of internal/server/transport.go with the commands that they amount to.
use sund.Prelude.{map, if◌then◌else◌, not, nat_eq, length, is_neg}
use sund.Store.Tables.{public_key_size}
use sund.Store.Queues.{create_queue, retire_queue}
use sund.Store.Messages.{append_message, drain_messages, delete_messages}
use sund.Store.Quotas.{set_queue_quota}
use sund.Store.Commands.{Command, execute}
use sund.Server.Types.{
  Library, Request, messages, deleted, retirement_done, message_id, created_queue, queue_quota,
  normal, high, internal_error,
}
use sund.Server.Auth.{require_signature, take, max_body_bytes}
use sund.Server.Transport.{
  clamp_message_ttl, append_error, set_quota_error, handle_create_queue, authorize_sender,
  handle_send, authorize_recipient, to_message_view, handle_recv, handle_ack, handle_retire,
  handle_set_queue_quota,
}
use sund.Server.Stored.{
  by_command, Stored, ◌>>=◌, ◌>>◌, responds, or_replies, runs_store, runs_db, requires, modifies_db,
}
use sund.Server.Stored.Steps.{
  verifies, finds_live, wakes_owner, parses_send, requires_signature, authorizes_sender,
  authorizes_recipient, of_steps,
}

module _ (lib : Library) where
  pub send-Stored : (r : Request) → Stored lib.sha256 (handle_send lib r)
  unfolding handle_send authorize_sender authorizes_sender finds_live verifies parses_send
      wakes_owner execute
  send-Stored r = of_steps lib do
    auth ← authorizes_sender lib r
    sent ← parses_send lib auth.1
    msg ←
        runs_store
          (append_message auth.0.recipient_id sent.0 (clamp_message_ttl sent.1) r.random
            r.time_stored)
          append_error
          (by_command lib.sha256 (
            Command.appends auth.0.recipient_id sent.0 (clamp_message_ttl sent.1) r.random
              r.time_stored))
    wakes_owner lib auth.0.owner_device (if sent.2 then high else normal)
    responds 202 (message_id msg.id)

  pub recv-Stored : (r : Request) → Stored lib.sha256 (handle_recv lib r)
  unfolding handle_recv authorize_recipient authorizes_recipient finds_live verifies execute
  recv-Stored r = of_steps lib do
    auth ← authorizes_recipient lib r
    msgs ←
        runs_db (drain_messages auth.0.recipient_id r.time_stored)
          (by_command lib.sha256 (Command.drains auth.0.recipient_id r.time_stored))
    responds 200 (messages (map (to_message_view lib) msgs))

  pub ack-Stored : (r : Request) → Stored lib.sha256 (handle_ack lib r)
  unfolding handle_ack authorize_recipient authorizes_recipient finds_live verifies execute
  ack-Stored r = of_steps lib do
    auth ← authorizes_recipient lib r
    ids ← or_replies (lib.json_ack auth.1) 400 "invalid json"
    n ←
        runs_db (delete_messages auth.0.recipient_id ids)
          (by_command lib.sha256 (Command.deletes auth.0.recipient_id ids))
    responds 200 (deleted n)

  pub retire-Stored : (r : Request) → Stored lib.sha256 (handle_retire lib r)
  unfolding handle_retire authorize_recipient authorizes_recipient finds_live verifies execute
  retire-Stored r = of_steps lib do
    auth ← authorizes_recipient lib r
    modifies_db (retire_queue auth.0.recipient_id)
        (by_command lib.sha256 (Command.retires auth.0.recipient_id))
    responds 200 retirement_done

  pub set_queue_quota-Stored : (r : Request) → Stored lib.sha256 (handle_set_queue_quota lib r)
  unfolding handle_set_queue_quota authorize_recipient authorizes_recipient finds_live verifies
      execute
  set_queue_quota-Stored r = of_steps lib do
    auth ← authorizes_recipient lib r
    bytes ← or_replies (lib.json_set_queue_quota auth.1) 400 "invalid json"
    requires (not (is_neg bytes)) 400 "quota_bytes must not be negative"
    runs_store (set_queue_quota auth.0.recipient_id bytes) set_quota_error
        (by_command lib.sha256 (Command.caps_queue auth.0.recipient_id bytes))
    responds 200 (queue_quota bytes)

  pub create_queue-Stored : (r : Request) → Stored lib.sha256 (handle_create_queue lib r)
  unfolding handle_create_queue require_signature requires_signature verifies execute
  create_queue-Stored r = of_steps lib do
    dev ← requires_signature lib r
    encoded ← or_replies (lib.json_create_queue (take max_body_bytes r.body)) 400 "invalid json"
    key ← or_replies (lib.decode_string encoded) 400 "invalid recipient_key"
    requires (nat_eq (length key) public_key_size) 400 "invalid recipient_key"
    q ←
        runs_store (create_queue dev.id key r.random r.random' r.time_stored) internal_error (
          by_command lib.sha256 (Command.creates_queue dev.id key r.random r.random' r.time_stored))
    responds 201 (created_queue q.recipient_id q.sender_id)
