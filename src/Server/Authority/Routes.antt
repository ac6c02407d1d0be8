-- ===== src/Server/Authority/Routes.antt =====
-- internal/server: every route changes the database on somebody's authority alone.
use sund.Prelude.{◌≡◌, ◌⊎◌, inl, inr, ◌∙◌, false, some, nat_eq, arith, Bool-cases, Option-cases}
use sund.Sql.{count}
use sund.Store.Tables.{format}
use sund.Store.Accounts.{account_quota_bytes}
use sund.Store.Invitations.{hash_token, list_invitations}
use sund.Store.Devices.{is_usable, register_device}
use sund.Store.Roles.{require_admin}
use sund.Store.Keyed.{IsKeyed}
use sund.Server.Types.{Library, Request, RegisterRequest, Server, reply, Response}
use sund.Server.Auth.{take, max_body_bytes}
use sund.Server.Transport.{
  authorize_sender, handle_create_queue, handle_send, handle_recv, handle_ack, handle_retire,
  handle_set_queue_quota,
}
use sund.Server.Push.{wake_account_devices, handle_update_push}
use sund.Server.Devices.{
  find_target, handle_register, handle_revoke, handle_create_invitation, handle_list_invitations,
  handle_revoke_invitation, handle_list_devices, handle_get_quota, handle_set_role,
}
use sund.Server.Statements.{handle_append_statement, handle_list_statements}
use sund.Server.Bundles.{handle_set_bundle, handle_get_bundle}
use sund.Server.Routes.{Route, route}
use sund.Server.Senders.{authorize_sender-IsAccepted}
use sund.Server.Unauthorized.{sender_refused}
use sund.Server.Authority.{may_write, IsInvited, Authorized, outcome_cases, by_device, by_recipient}

module _ (lib : Library) (r : Request) (s : Server) where
  not_invited :
      (req : RegisterRequest)
      → lib.json_register (take max_body_bytes r.body) ≡ some req
      → nat_eq
          (count
            (is_usable (hash_token lib.sha256 req.token) (format r.time_stored))
            s.db.invitations)
          1
        ≡ false
      → (handle_register lib r s).1.db ≡ s.db
  unfolding handle_register register_device wake_account_devices
  not_invited req e f = ground arith

  register-IsInvited : ((handle_register lib r s).1.db ≡ s.db) ⊎ IsInvited lib r s
  unfolding handle_register
  register-IsInvited = elim (Option-cases (lib.json_register (take max_body_bytes r.body))) [
    | inl e ↦ inl (ground arith)
    | inr (req, e) ↦
        elim (Bool-cases (
          nat_eq
            (count (is_usable (hash_token lib.sha256 req.token) (format r.time_stored))
              s.db.invitations)
            1)) [ inl f ↦ inr (req, e, ground arith) | inr f ↦ inl (not_invited req e f) ]
  ]

  send_rejected :
      (resp : Response) (s₁ : Server)
      → authorize_sender lib r s ≡ (reply resp, s₁)
      → (handle_send lib r s).1.db ≡ s₁.db
  unfolding handle_send
  send_rejected resp s₁ e = ground arith

  send-Authorized :
      IsKeyed s.db
      → ((handle_send lib r s).1.db ≡ s.db)
        ⊎ Authorized lib Route.send r s (handle_send lib r s).1.db
  unfolding Authorized
  send-Authorized v = elim (outcome_cases (authorize_sender lib r s)) [
    | inr (resp, e) ↦ inl (send_rejected resp _ e ∙ sender_refused lib r s _ resp v e)
    | inl ((q, body), e) ↦ inr (q, body, _, authorize_sender-IsAccepted lib r s _ q body e)
  ]

-- On every route a request leaves the database as it was, if its keys are unique, or it was
-- authorized. A registration carries the token of an invitation that can be used; a send is signed
-- with the key that the queue is bound to; a receipt, an ack, a retirement or a change of a queue's
-- quota is signed by the recipient of a queue that is not retired; a request on any other route but
-- the health check is signed by a device that is not revoked, and, apart from the time when that
-- device was last seen, it changes nothing on a route that reads, nor on a route for admins unless
-- the device is an admin or revokes itself.
pub route-Authorized :
    (lib : Library) (to : Route) (r : Request) (s : Server)
    → IsKeyed s.db
    → ((route lib to r s).1.db ≡ s.db) ⊎ Authorized lib to r s (route lib to r s).1.db
unfolding route Authorized may_write handle_create_queue handle_recv handle_ack handle_retire
    handle_set_queue_quota handle_update_push find_target handle_revoke handle_create_invitation
    handle_list_invitations handle_revoke_invitation handle_list_devices handle_get_quota
    handle_set_role handle_append_statement handle_list_statements handle_set_bundle
    handle_get_bundle account_quota_bytes list_invitations require_admin
route-Authorized lib Route.health r s v = inl (ground arith)
route-Authorized lib Route.register r s v = register-IsInvited lib r s
route-Authorized lib Route.send r s v = send-Authorized lib r s v
route-Authorized lib Route.recv r s v =
    by_recipient lib r s (route lib Route.recv r) (λ resp s₁ e. ground arith)
route-Authorized lib Route.ack r s v =
    by_recipient lib r s (route lib Route.ack r) (λ resp s₁ e. ground arith)
route-Authorized lib Route.retire r s v =
    by_recipient lib r s (route lib Route.retire r) (λ resp s₁ e. ground arith)
route-Authorized lib Route.set_queue_quota r s v =
    by_recipient lib r s (route lib Route.set_queue_quota r) (λ resp s₁ e. ground arith)
route-Authorized lib Route.list_devices r s v =
    by_device lib r s Route.list_devices (route lib Route.list_devices r)
      (λ resp s₁ e. ground arith) (λ d s₁ e h. ground arith)
route-Authorized lib Route.list_invitations r s v =
    by_device lib r s Route.list_invitations (route lib Route.list_invitations r)
      (λ resp s₁ e. ground arith) (λ d s₁ e h. ground arith)
route-Authorized lib Route.list_statements r s v =
    by_device lib r s Route.list_statements (route lib Route.list_statements r)
      (λ resp s₁ e. ground arith) (λ d s₁ e h. ground arith)
route-Authorized lib Route.get_bundle r s v =
    by_device lib r s Route.get_bundle (route lib Route.get_bundle r) (λ resp s₁ e. ground arith)
      (λ d s₁ e h. ground arith)
route-Authorized lib Route.get_quota r s v =
    by_device lib r s Route.get_quota (route lib Route.get_quota r) (λ resp s₁ e. ground arith)
      (λ d s₁ e h. ground arith)
route-Authorized lib Route.revoke r s v =
    by_device lib r s Route.revoke (route lib Route.revoke r) (λ resp s₁ e. ground arith)
      (λ d s₁ e h. ground arith)
route-Authorized lib Route.set_role r s v =
    by_device lib r s Route.set_role (route lib Route.set_role r) (λ resp s₁ e. ground arith)
      (λ d s₁ e h. ground arith)
route-Authorized lib Route.create_invitation r s v =
    by_device lib r s Route.create_invitation (route lib Route.create_invitation r)
      (λ resp s₁ e. ground arith) (λ d s₁ e h. ground arith)
route-Authorized lib Route.append_statement r s v =
    by_device lib r s Route.append_statement (route lib Route.append_statement r)
      (λ resp s₁ e. ground arith) (λ d s₁ e h. ground arith)
route-Authorized lib Route.revoke_invitation r s v =
    by_device lib r s Route.revoke_invitation (route lib Route.revoke_invitation r)
      (λ resp s₁ e. ground arith) (λ d s₁ e h. ground arith)
route-Authorized lib Route.update_push r s v =
    by_device lib r s Route.update_push (route lib Route.update_push r) (λ resp s₁ e. ground arith)
      (λ d s₁ e h. ground arith)
route-Authorized lib Route.create_queue r s v =
    by_device lib r s Route.create_queue (route lib Route.create_queue r)
      (λ resp s₁ e. ground arith) (λ d s₁ e h. ground arith)
route-Authorized lib Route.set_bundle r s v =
    by_device lib r s Route.set_bundle (route lib Route.set_bundle r) (λ resp s₁ e. ground arith)
      (λ d s₁ e h. ground arith)
