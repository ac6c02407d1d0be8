-- ===== src/Tests/SenderRuns.antt =====
-- The theorems on senders and on requests out of time at concrete inputs.
use sund.Prelude.{
  true, Bytes, ◌*◌, ◌≤◌, ◌≡◌, ◌≢◌, refl, [], ◌∷◌, ◌++◌, String, hex, codes, bytes_eq, pos, some,
  arith,
}
use sund.Sql.{find_row, update, count, has_row, total}
use sund.Store.Tables.{Queue, Message, add_time, new_id, second, format, ok}
use sund.Store.Accounts.{create_account, resolve_quota, quota_bytes_for_class}
use sund.Store.Invitations.{create_invitation, granted_role, hash_token}
use sund.Store.Devices.{
  register_device, consume, enroll, insert_device, registered_role, get_device, touch_last_seen,
}
use sund.Store.Queues.{create_queue, get_queue_by_sender, bind_sender_key}
use sund.Store.Messages.{
  append_message, insert_message, resolve, over_quota, queue_used, device_used, account_used,
}
use sund.Store.Commands.{execute, run}
use sund.Server.Types.{Request, Server, next}
use sund.Server.Nonces.{check_and_add, sweep, seen, put_nonce, is_replay}
use sund.Server.Auth.{
  extract_signature, is_signed, nonce_key, verify_and_record, require_signature, take, SigEnvelope,
}
use sund.Server.Transport.{
  clamp_message_ttl, authorize_sender, resolve_sender_key, bind_if, parse_send, handle_send,
}
use sund.Server.Routes.{serve_all}
use sund.Server.Replay.{replay_at_expiry}
use sund.Server.Ttl.{overflow_expired}
use sund.Server.Senders.{IsAccepted, authorize_sender-IsAccepted, sender_fixed}
use sund.Server.Sent.{Carries, send-stores}
use sund.Server.Push.{wake_queue_owner}
use sund.Store.Order.{mailbox}
use sund.Tests.World.{world, world-IsOrdered, library, key_text, queue, server, asking}

abbrev sending : Request
sending = record asking { path_value = "snd_04"; sender_key = key_text }

abbrev sending_again : Request
sending_again = record sending { nonce = "n2"; sender_key = "" }

abbrev bound_queue : Queue
bound_queue = record queue { sender_key = some (codes key_text) }

abbrev sent : Server
sent = (authorize_sender library sending server).1

authorize_sender-IsAccepted_example : IsAccepted library sending server queue [] sent
unfolding find_row update count has_row new_id create_account resolve_quota quota_bytes_for_class
    create_invitation granted_role hash_token register_device consume enroll insert_device
    registered_role create_queue execute run hex get_device touch_last_seen check_and_add sweep seen
    put_nonce is_replay extract_signature is_signed nonce_key verify_and_record require_signature
    take bytes_eq authorize_sender get_queue_by_sender bind_sender_key resolve_sender_key bind_if
authorize_sender-IsAccepted_example =
    authorize_sender-IsAccepted library sending server sent queue [] refl

sender_fixed_example :
    (key : Bytes) × (env : SigEnvelope) × (env' : SigEnvelope) × (extract_signature library sending
        server.clock_skew
      ≡ some env)
    × (extract_signature library sending_again sent.clock_skew ≡ some env')
    × ([] ≡ env.body)
    × ([] ≡ env'.body)
    × (is_signed library sending env key ≡ true)
    × (is_signed library sending_again env' key ≡ true)
unfolding find_row update count has_row new_id create_account resolve_quota quota_bytes_for_class
    create_invitation granted_role hash_token register_device consume enroll insert_device
    registered_role create_queue execute run hex get_device touch_last_seen check_and_add sweep seen
    put_nonce is_replay extract_signature is_signed nonce_key verify_and_record require_signature
    take bytes_eq authorize_sender get_queue_by_sender bind_sender_key resolve_sender_key bind_if
    serve_all
sender_fixed_example =
    sender_fixed library sending sending_again server sent
      (authorize_sender library sending_again sent).1 queue bound_queue [] [] [] refl refl refl

abbrev stored : Server
stored = (handle_send library sending server).1

send-stores_example :
    (q : Queue) × (body : Bytes) × (s₁ : Server) × (m : Message) × IsAccepted library sending server
      q body s₁
    × Carries library body m.payload
    × (m.id ≡ "msg_05")
    × (mailbox stored.db q.recipient_id ≡ mailbox world q.recipient_id ++ m ∷ [])
    × ((other : String) → other ≢ q.recipient_id → mailbox stored.db other ≡ mailbox world other)
unfolding find_row update count has_row new_id create_account resolve_quota quota_bytes_for_class
    create_invitation granted_role hash_token register_device consume enroll insert_device
    registered_role create_queue execute run hex get_device touch_last_seen check_and_add sweep seen
    put_nonce is_replay extract_signature is_signed nonce_key verify_and_record require_signature
    take bytes_eq authorize_sender get_queue_by_sender bind_sender_key resolve_sender_key bind_if
    append_message insert_message resolve over_quota queue_used device_used account_used total
    handle_send parse_send clamp_message_ttl wake_queue_owner
send-stores_example = send-stores library sending server stored "msg_05" world-IsOrdered refl

abbrev late : Request
late = record asking { time_recorded = 400 * second }

abbrev envelope : SigEnvelope
envelope = record {
  timestamp = "t";
  nonce = "n1";
  signature = codes key_text;
  body = [];
  signed_at = 100 * second;
}

replay_at_expiry_example :
    ((verify_and_record library late envelope "dev_01" (codes key_text) server).0 ≡ next tt)
    × ((verify_and_record library late envelope "dev_01"
          (codes key_text)
          (verify_and_record library late envelope "dev_01" (codes key_text) server).1).0
        ≡ next tt)
unfolding extract_signature is_signed seen take bytes_eq
replay_at_expiry_example =
    replay_at_expiry library late envelope "dev_01" (codes key_text) server refl refl refl
      (omega arith)

abbrev expired : Message
expired = record {
  seq = 1;
  id = "msg_05";
  queue_id = "rcp_03";
  payload = 7 ∷ [];
  received_at = 10000000000;
  expires = format (add_time (10000000000 * second) (clamp_message_ttl (pos 9300000000)));
}

overflow_expired_example : expired.expires ≤ format (10000000000 * second)
unfolding find_row update count has_row new_id create_account resolve_quota quota_bytes_for_class
    create_invitation granted_role hash_token register_device consume enroll insert_device
    registered_role create_queue execute run hex get_device touch_last_seen check_and_add sweep seen
    put_nonce is_replay extract_signature is_signed nonce_key verify_and_record require_signature
    take bytes_eq append_message insert_message resolve over_quota queue_used device_used
    account_used total
overflow_expired_example =
    overflow_expired world 9300000000 "rcp_03" (7 ∷ []) (5 ∷ []) (10000000000 * second)
      (omega arith) (omega arith) stored
  where
    stored :
        append_message "rcp_03"
          (7 ∷ [])
          (clamp_message_ttl (pos 9300000000))
          (5 ∷ [])
          (10000000000 * second)
          world
        ≡ ok (expired, insert_message expired world)
    stored = refl
