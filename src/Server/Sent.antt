-- ===== src/Server/Sent.antt =====
-- internal/server/transport.go: what a send that is answered by 202 stores.
use sund.Prelude.{
  ℕ, ◌≤◌, ◌≡◌, ◌≢◌, inl, inr, ◌∙◌, ap, sym, subst, some, [], ◌∷◌, ◌++◌, String, Bytes, ℤ, Bool,
  length, arith, Option-cases,
}
use sund.Sql.{select}
use sund.Store.Shapes.{result_cases}
use sund.Store.Tables.{Db, Queue, Message, Error, ok}
use sund.Store.Queues.{get_queue_by_sender, bind_sender_key}
use sund.Store.Messages.{append_message, in_queue}
use sund.Store.Order.{IsOrdered, mailbox, same_messages, append_message-last}
use sund.Server.Types.{Library, Request, SendRequest, Server, next, reply, Response, message_id}
use sund.Server.Auth.{verify_and_record}
use sund.Server.Push.{wake_queue_owner}
use sund.Server.Transport.{
  authorize_sender, bind_if, resolve_sender_key, parse_send, handle_send, append_error,
  max_payload_bytes, clamp_message_ttl,
}
use sund.Server.Senders.{IsAccepted, authorize_sender-IsAccepted}
use sund.Server.Authority.{outcome_cases}

-- The body of a send carries the payload, which is not empty and not too large.
abbrev pub Carries : Library → Bytes → Bytes → Type 0
Carries lib body payload =
    (req : SendRequest) × (lib.json_send body ≡ some req)
    × (lib.decode_string req.payload ≡ some payload)
    × (1 ≤ length payload)
    × (length payload ≤ max_payload_bytes)

abbrev accepted : String → Response
accepted id = record { status = 202; body = message_id id }

error_refused : (e : Error) → (append_error e).0 ≢ 202
error_refused e h = ground arith

module _ (lib : Library) (r : Request) where
  authorized_messages :
      (s s₁ : Server) (q : Queue) (body : Bytes)
      → authorize_sender lib r s ≡ (next (q, body), s₁)
      → (s₁.db.messages ≡ s.db.messages) × (s₁.db.message_seq ≡ s.db.message_seq)
  unfolding authorize_sender get_queue_by_sender verify_and_record bind_if bind_sender_key
      resolve_sender_key
  authorized_messages s s₁ q body e = (ground arith, ground arith)

  not_authorized :
      (s s₁ s' : Server) (resp : Response) (id : String)
      → authorize_sender lib r s ≡ (reply resp, s₁)
      → resp.status ≢ 202
      → handle_send lib r s ≡ (reply (accepted id), s')
      → ⊥
  unfolding handle_send
  not_authorized s s₁ s' resp id e n h = ground arith

  sender_status :
      (s s₁ : Server) (resp : Response)
      → authorize_sender lib r s ≡ (reply resp, s₁)
      → resp.status ≢ 202
  unfolding authorize_sender get_queue_by_sender verify_and_record bind_if
  sender_status s s₁ resp e h = ground arith

  parsed-Carries :
      (s₁ s₂ : Server) (body payload : Bytes) (ttl : ℤ) (high : Bool)
      → parse_send lib body s₁ ≡ (next (payload, ttl, high), s₂)
      → (s₂ ≡ s₁) × Carries lib body payload
  unfolding parse_send
  parsed-Carries s₁ s₂ body payload ttl high e = elim (Option-cases (lib.json_send body)) [
    | inl f ↦ absurd (ground arith)
    | inr (req, f) ↦ (ground arith, (req, f, ground arith, ground arith, ground arith))
  ]

  parse_status :
      (s₁ s₂ : Server) (body : Bytes) (resp : Response)
      → parse_send lib body s₁ ≡ (reply resp, s₂)
      → resp.status ≢ 202
  unfolding parse_send
  parse_status s₁ s₂ body resp e h = ground arith

  not_parsed :
      (s s₁ s₂ s' : Server) (q : Queue) (body : Bytes) (resp : Response) (id : String)
      → authorize_sender lib r s ≡ (next (q, body), s₁)
      → parse_send lib body s₁ ≡ (reply resp, s₂)
      → resp.status ≢ 202
      → handle_send lib r s ≡ (reply (accepted id), s')
      → ⊥
  unfolding handle_send
  not_parsed s s₁ s₂ s' q body resp id e f n h = ground arith

  payload_of :
      (id : String) (payload : Bytes) (ttl : ℤ) (now : ℕ) (db db' : Db) (m : Message)
      → append_message id payload ttl r.random now db ≡ ok (m, db')
      → m.payload ≡ payload
  unfolding append_message
  payload_of id payload ttl now db db' m e = ground arith

  same_mailbox :
      (db db' : Db) (id : String) → db'.messages ≡ db.messages → mailbox db' id ≡ mailbox db id
  unfolding mailbox
  same_mailbox db db' id e = ap (select (in_queue id)) e

  appended :
      (s s₁ s' : Server) (q : Queue) (body payload : Bytes) (ttl : ℤ) (high : Bool) (id : String)
      → authorize_sender lib r s ≡ (next (q, body), s₁)
      → parse_send lib body s₁ ≡ (next (payload, ttl, high), s₁)
      → handle_send lib r s ≡ (reply (accepted id), s')
      → (m : Message) × (m.id ≡ id)
        × (append_message q.recipient_id payload
              (clamp_message_ttl ttl)
              r.random
              r.time_stored
              s₁.db
            ≡ ok (m, s'.db))
  unfolding handle_send wake_queue_owner
  appended s s₁ s' q body payload ttl high id e f h =
      elim (result_cases (
        append_message q.recipient_id payload (clamp_message_ttl ttl) r.random r.time_stored
          s₁.db)) [
            | inl (x, g) ↦ absurd (ground (arith, error_refused x))
            | inr ((m, db), g) ↦ (m, ground arith, ground arith)
          ]

  -- A send that is answered by 202 was accepted for a queue, and its body carries a payload that is
  -- not empty and not too large. The message of the answered id, with this payload, stands at the
  -- end of that queue, and no other queue changes. The messages stood in the order of their numbers
  -- before.
  pub send-stores :
      (s s' : Server) (id : String)
      → IsOrdered s.db
      → handle_send lib r s ≡ (reply (accepted id), s')
      → (q : Queue) × (body : Bytes) × (s₁ : Server) × (m : Message) × IsAccepted lib r s q body s₁
        × Carries lib body m.payload
        × (m.id ≡ id)
        × (mailbox s'.db q.recipient_id ≡ mailbox s.db q.recipient_id ++ m ∷ [])
        × ((other : String) → other ≢ q.recipient_id → mailbox s'.db other ≡ mailbox s.db other)
  send-stores s s' id v h = elim (outcome_cases (authorize_sender lib r s)) [
    | inr (resp, e) ↦ absurd (not_authorized s _ s' resp id e (sender_status s _ resp e) h)
    | inl ((q, body), e) ↦ elim (outcome_cases (parse_send lib body (authorize_sender lib r s).1)) [
      | inr (resp, f) ↦
          absurd (not_parsed s _ _ s' q body resp id e f (parse_status _ _ body resp f) h)
      | inl ((payload, ttl, high), f) ↦
          let s₁ = (authorize_sender lib r s).1 in
          let (same, carried) = parsed-Carries s₁ _ body payload ttl high f in
          let (m, name, stored) =
            appended s s₁ s' q body payload ttl high id e
              (subst (λ t. parse_send lib body s₁ ≡ (next (payload, ttl, high), t)) same f) h in
          let (kept, counted) = authorized_messages s s₁ q body e in
          let (last, others, above) =
            append_message-last q.recipient_id payload (clamp_message_ttl ttl) r.random
              r.time_stored s₁.db (same_messages s.db v s₁.db kept counted) stored in
          let held =
            payload_of q.recipient_id payload (clamp_message_ttl ttl) r.time_stored s₁.db s'.db m
              stored in
          (
            q,
            body,
            s₁,
            m,
            authorize_sender-IsAccepted lib r s s₁ q body e,
            subst (Carries lib body) (sym held) carried,
            name,
            last ∙ ap (λ l. l ++ m ∷ []) (same_mailbox s.db s₁.db q.recipient_id kept),
            λ other n. others other n ∙ same_mailbox s.db s₁.db other kept,
          )
    ]
  ]
