-- ===== src/Client/Queue.antt =====
-- client/queue.go: the two ends of a queue.
use sund.Prelude.{
  ℕ, ◌+◌, ◌/◌, Bool, Option, none, some, List, [], ◌∷◌, String, ◌<>◌, Bytes, ℤ, pos, negsuc, zero,
  suc,
}
use sund.Store.Tables.{second}
use sund.Client.Types.{
  set_header, Value, text, texts, number, truth, MessageOut, ClientLibrary, Draw, Call, ◌>>=◌, give,
  or_fail, not_decoded,
}
use sund.Client.Conn.{Conn, do_request, no_answer}

pub record Message : Type 0 where
  pub id : String
  pub payload : Bytes
  pub received_at : Option ℕ
  pub expires : Option ℕ

pub record Recipient (Key W : Type 0) : Type 0 where
  pub conn : Conn W
  pub recipient_id : String
  pub key : Key

pub record Sender (Key W : Type 0) : Type 0 where
  pub conn : Conn W
  pub sender_id : String
  pub key : Key

-- `ttl` is a time.Duration.
pub record SendOptions : Type 0 where
  pub ttl : ℤ
  pub priority : Bool

negative : ℕ → ℤ
negative zero = pos 0
negative (suc n) = negsuc n

-- int(d / time.Second): Go's division cuts towards zero.
unfoldable pub whole_seconds : ℤ → ℤ
unfolding negative
whole_seconds (pos n) = pos (n / second)
whole_seconds (negsuc n) = negative ((n + 1) / second)

module _ {Key : Type 0} (lib : ClientLibrary Key) where
  -- One message of an answer; a time that does not parse is the zero time.
  unfoldable pub decode_message : MessageOut → Option Message
  decode_message m = elim (lib.decode_string m.payload) [
    | none ↦ none
    | some payload ↦ some (record {
      id = m.id;
      payload = payload;
      received_at = lib.parse_time m.received_at;
      expires = lib.parse_time m.expires;
    })
  ]

  -- The loop of Recv.
  unfoldable pub decode_messages : List MessageOut → Option (List Message)
  unfolding decode_message
  decode_messages [] = some []
  decode_messages (m ∷ ms) = elim (decode_message m) [
    | none ↦ none
    | some message ↦ elim (decode_messages ms) [
      | none ↦ none
      | some messages ↦ some (message ∷ messages)
    ]
  ]

  -- The body of a send.
  unfoldable pub send_fields : Bytes → SendOptions → List (String × Value)
  unfolding whole_seconds
  send_fields ciphertext opts =
      ("payload", text (lib.encode_string ciphertext))
      ∷ ("ttl", number (whole_seconds opts.ttl))
      ∷ ("priority", truth opts.priority)
      ∷ []

module _ {Key W : Type 0} (lib : ClientLibrary Key) where
  -- Recipient.Recv
  unfoldable pub recv : Recipient Key W → Draw → Call W (List Message)
  unfolding do_request decode_messages
  recv r draw = do
    out ←
        do_request lib r.conn draw (some r.key) "GET" ("/v1/recv/" <> r.recipient_id) [] none
          lib.json_messages
    or_fail (decode_messages lib out) not_decoded

  -- Recipient.Ack: no ids, no request.
  unfoldable pub ack : Recipient Key W → Draw → List String → Call W ℤ
  unfolding do_request
  ack r draw [] = give (pos 0)
  ack r draw (id ∷ ids) =
      do_request lib r.conn draw (some r.key) "POST" ("/v1/ack/" <> r.recipient_id) []
        (some (("ids", texts (id ∷ ids)) ∷ [])) lib.json_deleted

  -- Recipient.Retire
  unfoldable pub retire : Recipient Key W → Draw → Call W (Unit {0})
  unfolding do_request
  retire r draw =
      do_request lib r.conn draw (some r.key) "POST" ("/v1/retire/" <> r.recipient_id) [] none
        no_answer

  -- Recipient.SetQuota
  unfoldable pub set_quota : Recipient Key W → Draw → ℤ → Call W (Unit {0})
  unfolding do_request
  set_quota r draw quota_bytes =
      do_request lib r.conn draw (some r.key) "POST" ("/v1/quota/" <> r.recipient_id) []
        (some (("quota_bytes", number quota_bytes) ∷ [])) no_answer

  -- Sender.Send
  unfoldable pub send : Sender Key W → Draw → Bytes → SendOptions → Call W String
  unfolding do_request send_fields
  send s draw ciphertext opts =
      do_request lib s.conn draw (some s.key) "POST" ("/v1/send/" <> s.sender_id)
        (set_header "Sund-Sender-Key" (lib.encode_string (lib.public s.key)) [])
        (some (send_fields lib ciphertext opts)) lib.json_message_id
