-- ===== src/Server/Authority.antt =====
-- internal/server: on whose authority a request changes the database.
pub mod Routes
use sund.Prelude.{
  ◌+◌, ◌≡◌, ◌⊎◌, inl, inr, ap, ◌∙◌, refl, Bool, true, false, ◌||◌, none, some, String, ◌==◌, Bytes,
  nat_eq, arith, Bool-cases, Option-cases,
}
use sund.Sql.{count}
use sund.Store.Tables.{Db, Device, Queue, queue_at, role_admin, format}
use sund.Store.Accounts.{account_quota_bytes}
use sund.Store.Invitations.{hash_token, list_invitations}
use sund.Store.Devices.{is_usable, register_device}
use sund.Store.Roles.{require_admin}
use sund.Store.Queues.{get_queue_by_recipient}
use sund.Store.Keyed.{IsKeyed}
use sund.Server.Types.{
  Library, Request, RegisterRequest, Server, Handler, Outcome, next, reply, Response,
}
use sund.Server.Nonces.{check_and_add}
use sund.Server.Auth.{
  SigEnvelope, extract_signature, verify_and_record, require_signature, is_signed, take,
  max_body_bytes, nonce_key,
}
use sund.Server.Transport.{
  authorize_sender, authorize_recipient, handle_create_queue, handle_send, handle_recv, handle_ack,
  handle_retire, handle_set_queue_quota,
}
use sund.Server.Push.{wake_account_devices, handle_update_push}
use sund.Server.Devices.{
  find_target, handle_register, handle_revoke, handle_create_invitation, handle_list_invitations,
  handle_revoke_invitation, handle_list_devices, handle_get_quota, handle_set_role,
}
use sund.Server.Statements.{handle_append_statement, handle_list_statements}
use sund.Server.Bundles.{handle_set_bundle, handle_get_bundle}
use sund.Server.Routes.{Route, route}
use sund.Server.Lockout.{IsAuthentic, require_signature-IsAuthentic}
use sund.Server.Senders.{IsAccepted, authorize_sender-IsAccepted}
use sund.Server.Unauthorized.{signature_refused, recipient_refused, sender_refused}

-- Which devices may write on a route, apart from the time they were last seen: no device on a route
-- that reads, an admin on those for admins, an admin or the device itself on a revocation.
unfoldable pub may_write : Route → Request → Device → Bool
may_write Route.list_devices r d = false
may_write Route.list_invitations r d = false
may_write Route.list_statements r d = false
may_write Route.get_bundle r d = false
may_write Route.get_quota r d = false
may_write Route.revoke r d = r.path_value == d.id || d.role == role_admin
may_write Route.set_role r d = d.role == role_admin
may_write Route.create_invitation r d = d.role == role_admin
may_write Route.append_statement r d = d.role == role_admin
may_write to r d = true

-- The request was made by a device, and what it wrote is what that device may write.
abbrev pub ByDevice : Library → Route → Request → Server → Db → Type 0
ByDevice lib to r s after =
    (d : Device) × (s₁ : Server) × IsAuthentic lib r s d s₁
    × ((after ≡ s₁.db) ⊎ (may_write to r d ≡ true))

-- The request was made by the recipient of a queue that is not retired: its signature by the
-- recipient's key covers the body, and its nonce is new.
pub record IsRecipients (lib : Library) (r : Request) (s : Server) (q : Queue) : Type 0 where
  pub env : SigEnvelope
  pub parsed : extract_signature lib r s.clock_skew ≡ some env
  pub found : queue_at s.db r.path_value ≡ some q
  pub live : q.retired ≡ false
  pub signed : is_signed lib r env q.recipient_key ≡ true
  pub fresh :
      (check_and_add
        (nonce_key lib r.path_value env.nonce)
        (env.signed_at + s.clock_skew)
        r.time_recorded
        s.nonces).0
      ≡ true

-- The body carries the token of an invitation that can be used.
abbrev pub IsInvited : Library → Request → Server → Type 0
IsInvited lib r s =
    (req : RegisterRequest) × (lib.json_register (take max_body_bytes r.body) ≡ some req)
    × (count (is_usable (hash_token lib.sha256 req.token) (format r.time_stored)) s.db.invitations
        ≡ 1)

-- Who may change the database to another on a route.
unfoldable pub Authorized : Library → Route → Request → Server → Db → Type 0
Authorized lib Route.health r s after = ⊥
Authorized lib Route.register r s after = IsInvited lib r s
Authorized lib Route.send r s after =
    (q : Queue) × (body : Bytes) × (s₁ : Server) × IsAccepted lib r s q body s₁
Authorized lib Route.recv r s after = (q : Queue) × IsRecipients lib r s q
Authorized lib Route.ack r s after = (q : Queue) × IsRecipients lib r s q
Authorized lib Route.retire r s after = (q : Queue) × IsRecipients lib r s q
Authorized lib Route.set_queue_quota r s after = (q : Queue) × IsRecipients lib r s q
Authorized lib to r s after = ByDevice lib to r s after

pub outcome_cases :
    {A : Type 0} (p : Outcome A × Server)
    → ((a : A) × (p ≡ (next a, p.1))) ⊎ ((resp : Response) × (p ≡ (reply resp, p.1)))
outcome_cases (next a, s) = inl (a, refl)
outcome_cases (reply resp, s) = inr (resp, refl)

module _ (lib : Library) (r : Request) (s : Server) where
  no_queue :
      (s' : Server) (q : Queue) (body : Bytes)
      → queue_at s.db r.path_value ≡ none
      → authorize_recipient lib r s ≡ (next (q, body), s')
      → ⊥
  unfolding authorize_recipient get_queue_by_recipient
  no_queue s' q body f e = ground arith

  no_envelope :
      (s' : Server) (q : Queue) (body : Bytes)
      → extract_signature lib r s.clock_skew ≡ none
      → authorize_recipient lib r s ≡ (next (q, body), s')
      → ⊥
  unfolding authorize_recipient get_queue_by_recipient
  no_envelope s' q body f e = ground arith

  passed :
      (s' : Server) (q q' : Queue) (body : Bytes) (env : SigEnvelope)
      → queue_at s.db r.path_value ≡ some q'
      → extract_signature lib r s.clock_skew ≡ some env
      → authorize_recipient lib r s ≡ (next (q, body), s')
      → (q' ≡ q)
        × (q.retired ≡ false)
        × (is_signed lib r env q.recipient_key ≡ true)
        × ((check_and_add
              (nonce_key lib r.path_value env.nonce)
              (env.signed_at + s.clock_skew)
              r.time_recorded
              s.nonces).0
            ≡ true)
  unfolding authorize_recipient get_queue_by_recipient verify_and_record
  passed s' q q' body env f g e = ground arith

  authorize_recipient-IsRecipients :
      (s' : Server) (q : Queue) (body : Bytes)
      → authorize_recipient lib r s ≡ (next (q, body), s')
      → IsRecipients lib r s q
  authorize_recipient-IsRecipients s' q body e = elim (Option-cases (queue_at s.db r.path_value)) [
    | inl f ↦ absurd (no_queue s' q body f e)
    | inr (q', f) ↦ elim (Option-cases (extract_signature lib r s.clock_skew)) [
      | inl g ↦ absurd (no_envelope s' q body g e)
      | inr (env, g) ↦
          let (same, live, signed, fresh) = passed s' q q' body env f g e in
          record {
            env = env;
            parsed = g;
            found = f ∙ ap some same;
            live = live;
            signed = signed;
            fresh = fresh;
          }
    ]
  ]

  -- A handler that starts with requireSignature.
  pub by_device :
      (to : Route) (m : Handler (Unit {0}))
      → ((resp : Response) (s₁ : Server)
          → require_signature lib r s ≡ (reply resp, s₁)
          → (m s).1.db ≡ s₁.db)
      → ((d : Device) (s₁ : Server)
          → require_signature lib r s ≡ (next d, s₁)
          → may_write to r d ≡ false
          → (m s).1.db ≡ s₁.db)
      → ((m s).1.db ≡ s.db) ⊎ ByDevice lib to r s (m s).1.db
  by_device to m refused accepted = elim (outcome_cases (require_signature lib r s)) [
    | inr (resp, e) ↦ inl (refused resp _ e ∙ signature_refused lib r s _ resp e)
    | inl (d, e) ↦
        let authentic = require_signature-IsAuthentic lib r s _ d e in
        elim (Bool-cases (may_write to r d)) [
          | inl h ↦ inr (d, _, authentic, inr h)
          | inr h ↦ inr (d, _, authentic, inl (accepted d _ e h))
        ]
  ]

  -- A handler that starts with authorizeRecipient.
  pub by_recipient :
      (m : Handler (Unit {0}))
      → ((resp : Response) (s₁ : Server)
          → authorize_recipient lib r s ≡ (reply resp, s₁)
          → (m s).1.db ≡ s₁.db)
      → ((m s).1.db ≡ s.db) ⊎ ((q : Queue) × IsRecipients lib r s q)
  by_recipient m refused = elim (outcome_cases (authorize_recipient lib r s)) [
    | inr (resp, e) ↦ inl (refused resp _ e ∙ recipient_refused lib r s _ resp e)
    | inl ((q, body), e) ↦ inr (q, authorize_recipient-IsRecipients _ q body e)
  ]
