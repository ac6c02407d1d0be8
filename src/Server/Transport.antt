-- ===== src/Server/Transport.antt =====
-- internal/server/transport.go: queues and messages.
use sund.Prelude.{
  ℕ, ◌*◌, Bool, true, false, not, ◌&&◌, Option, none, some, map, String, ◌==◌, Bytes, ℤ, pos,
  negsuc, is_neg, lt_ℕ, to_int64, leb, nat_eq, length, if◌then◌else◌,
}
use sund.Store.Tables.{
  Db, Queue, Message, Error, Result, ok, err, quota_exceeded, quota_not_changed, public_key_size,
  second,
}
use sund.Store.Queues.{
  create_queue, get_queue_by_recipient, get_queue_by_sender, bind_sender_key, retire_queue,
}
use sund.Store.Messages.{append_message, drain_messages, delete_messages}
use sund.Store.Quotas.{set_queue_quota}
use sund.Server.Types.{
  Library, Request, Handler, normal, high, next, message_id, messages, MessageView, created_queue,
  deleted, retirement_done, queue_quota, ◌>>=◌, ◌>>◌, write_error, respond, give, gets, modify_db,
  require, or_reply, run_store, internal_error,
}
use sund.Server.Auth.{require_signature, extract_signature, verify_and_record, take, max_body_bytes}
use sund.Server.Push.{wake_queue_owner}

abbrev pub max_payload_bytes : ℕ
max_payload_bytes = 65536

abbrev pub default_message_ttl : ℕ
default_message_ttl = 24 * 3600 * second

abbrev pub max_message_ttl : ℕ
max_message_ttl = 7 * 24 * 3600 * second

-- clampMessageTTL: the product of an int and time.Second is an int64.
unfoldable pub clamp_message_ttl : ℤ → ℤ
clamp_message_ttl (negsuc n) = pos default_message_ttl
clamp_message_ttl (pos n) =
    let d = to_int64 (n * second) in
    if nat_eq n 0
    then pos default_message_ttl
    else if lt_ℕ max_message_ttl d
    then pos max_message_ttl
    else d

-- A queue that is looked up for a request: one that is retired is not there.
abbrev pub find_live : Result Queue → Handler Queue
find_live (err e) = write_error 404 "no such queue"
find_live (ok q) = if q.retired then write_error 404 "no such queue" else give q

-- The ids of a DELETE and the messages of a drain come back beside the database.
abbrev pub run_db : {A : Type 0} → (Db → A × Db) → Handler A
run_db f s = let (a, db') = f s.db in (next a, record s { db = db' })

-- AppendMessage's errors.
abbrev pub append_error : Error → ℕ × String
append_error quota_exceeded = (507, "storage quota exceeded")
append_error _ = (500, "internal error")

abbrev pub set_quota_error : Error → ℕ × String
set_quota_error quota_not_changed = (404, "no such queue")
set_quota_error _ = (500, "internal error")

module _ (lib : Library) where
  -- handleCreateQueue
  unfoldable pub handle_create_queue : Request → Handler (Unit {0})
  handle_create_queue r = do
    dev ← require_signature lib r
    encoded ← or_reply (lib.json_create_queue (take max_body_bytes r.body)) 400 "invalid json"
    key ← or_reply (lib.decode_string encoded) 400 "invalid recipient_key"
    require (nat_eq (length key) public_key_size) 400 "invalid recipient_key"
    q ← run_store (create_queue dev.id key r.random r.random' r.time_stored) internal_error
    respond 201 (created_queue q.recipient_id q.sender_id)

  -- resolveSenderKey: the key to verify with, and whether this send binds it.
  unfoldable pub resolve_sender_key : Request → Queue → Option (Bytes × Bool)
  resolve_sender_key r q = elim q.sender_key [
    | none ↦ if r.sender_key == "" then none else elim (lib.decode_string r.sender_key) [
      | none ↦ none
      | some raw ↦ if nat_eq (length raw) public_key_size then some (raw, true) else none
    ]
    | some key ↦
        if not (r.sender_key == "") && not (r.sender_key == lib.encode_string key)
        then none
        else some (key, false)
  ]

  -- The bind of handleSend.
  unfoldable pub bind_if : Bool → String → Bytes → Handler (Unit {0})
  bind_if false sender_id key = give tt
  bind_if true sender_id key = do
    bound ← run_store (bind_sender_key sender_id key) internal_error
    require bound 401 "unauthorized"

  -- The request is authenticated: the queue, and the verified body.
  unfoldable pub authorize_sender : Request → Handler (Queue × Bytes)
  unfolding resolve_sender_key bind_if
  authorize_sender r = do
    found ← gets (λ s. get_queue_by_sender s.db r.path_value)
    q ← find_live found
    skew ← gets (λ s. s.clock_skew)
    env ← or_reply (extract_signature lib r skew) 401 "unauthorized"
    resolved ← or_reply (resolve_sender_key r q) 401 "unauthorized"
    verify_and_record lib r env r.path_value resolved.0
    bind_if resolved.1 r.path_value resolved.0
    give (q, env.body)

  -- The payload of a send, from the verified body.
  unfoldable pub parse_send : Bytes → Handler (Bytes × ℤ × Bool)
  parse_send body = do
    req ← or_reply (lib.json_send body) 400 "invalid json"
    payload ← or_reply (lib.decode_string req.payload) 400 "invalid payload"
    require (not (nat_eq (length payload) 0)) 400 "empty payload"
    require (leb (length payload) max_payload_bytes) 413 "payload too large"
    give (payload, req.ttl, req.priority)

  -- handleSend
  unfoldable pub handle_send : Request → Handler (Unit {0})
  unfolding authorize_sender parse_send
  handle_send r = do
    auth ← authorize_sender r
    sent ← parse_send auth.1
    msg ←
        run_store
          (append_message auth.0.recipient_id sent.0 (clamp_message_ttl sent.1) r.random
            r.time_stored)
          append_error
    wake_queue_owner auth.0.owner_device (if sent.2 then high else normal)
    respond 202 (message_id msg.id)

  -- authorizeRecipient
  unfoldable pub authorize_recipient : Request → Handler (Queue × Bytes)
  authorize_recipient r = do
    found ← gets (λ s. get_queue_by_recipient s.db r.path_value)
    q ← find_live found
    skew ← gets (λ s. s.clock_skew)
    env ← or_reply (extract_signature lib r skew) 401 "unauthorized"
    verify_and_record lib r env r.path_value q.recipient_key
    give (q, env.body)

  unfoldable pub to_message_view : Message → MessageView
  to_message_view m = record {
    id = m.id;
    payload = lib.encode_string m.payload;
    received_at = m.received_at;
    expires = m.expires;
  }

  -- handleRecv
  unfoldable pub handle_recv : Request → Handler (Unit {0})
  unfolding authorize_recipient
  handle_recv r = do
    auth ← authorize_recipient r
    msgs ← run_db (drain_messages auth.0.recipient_id r.time_stored)
    respond 200 (messages (map to_message_view msgs))

  -- handleAck
  unfoldable pub handle_ack : Request → Handler (Unit {0})
  unfolding authorize_recipient
  handle_ack r = do
    auth ← authorize_recipient r
    ids ← or_reply (lib.json_ack auth.1) 400 "invalid json"
    n ← run_db (delete_messages auth.0.recipient_id ids)
    respond 200 (deleted n)

  -- handleRetire
  unfoldable pub handle_retire : Request → Handler (Unit {0})
  unfolding authorize_recipient
  handle_retire r = do
    auth ← authorize_recipient r
    modify_db (retire_queue auth.0.recipient_id)
    respond 200 retirement_done

  -- handleSetQueueQuota
  unfoldable pub handle_set_queue_quota : Request → Handler (Unit {0})
  unfolding authorize_recipient
  handle_set_queue_quota r = do
    auth ← authorize_recipient r
    bytes ← or_reply (lib.json_set_queue_quota auth.1) 400 "invalid json"
    require (not (is_neg bytes)) 400 "quota_bytes must not be negative"
    run_store (set_queue_quota auth.0.recipient_id bytes) set_quota_error
    respond 200 (queue_quota bytes)
