-- ===== src/Server/Unauthorized.antt =====
-- internal/server: what a response of 401 leaves behind.
use sund.Prelude.{◌≡◌, true, none, some, arith, inl, inr, String, ◌==◌, Option-cases}
use sund.Sql.{find_row, count}
use sund.Sql.Laws.{find_row-holds}
use sund.Sql.Unique.{count_le, count_pos}
use sund.Store.Tables.{Db, Queue}
use sund.Store.Queues.{is_bindable, get_queue_by_sender, get_queue_by_recipient, bind_sender_key}
use sund.Store.Keyed.{IsKeyed}
use sund.Server.Types.{Library, Request, Server, reply, Response}
use sund.Server.Auth.{require_signature, verify_and_record}
use sund.Server.Transport.{
  authorize_sender, authorize_recipient, resolve_sender_key, bind_if, parse_send,
  handle_create_queue, handle_send, handle_recv, handle_ack, handle_retire, handle_set_queue_quota,
}
use sund.Server.Push.{wake_account_devices, wake_queue_owner, handle_update_push}
use sund.Server.Devices.{
  find_target, wake_target, handle_register, handle_revoke, handle_create_invitation,
  handle_list_invitations, handle_revoke_invitation, handle_list_devices, handle_get_quota,
  handle_set_role,
}
use sund.Server.Statements.{handle_append_statement, handle_list_statements}
use sund.Server.Bundles.{handle_set_bundle, handle_get_bundle}
use sund.Server.Routes.{Route, route}

module _ (lib : Library) (r : Request) (s s' : Server) (resp : Response) where
  pub signature_refused : require_signature lib r s ≡ (reply resp, s') → s'.db ≡ s.db
  unfolding require_signature verify_and_record
  signature_refused e = ground arith

  pub recipient_refused : authorize_recipient lib r s ≡ (reply resp, s') → s'.db ≡ s.db
  unfolding authorize_recipient verify_and_record get_queue_by_recipient
  recipient_refused e = ground arith

  sender_not_found :
      find_row (λ x. x.sender_id == r.path_value) s.db.queues ≡ none
      → authorize_sender lib r s ≡ (reply resp, s')
      → s'.db ≡ s.db
  unfolding authorize_sender get_queue_by_sender
  sender_not_found f e = ground arith

  -- The bind of a queue that is open, live and the only one of its id takes effect.
  sender_refused_at :
      (q : Queue)
      → find_row (λ x. x.sender_id == r.path_value) s.db.queues ≡ some q
      → (is_bindable r.path_value q ≡ true → count (is_bindable r.path_value) s.db.queues ≡ 1)
      → q.sender_id == r.path_value ≡ true
      → authorize_sender lib r s ≡ (reply resp, s')
      → s'.db ≡ s.db
  unfolding authorize_sender get_queue_by_sender verify_and_record bind_if bind_sender_key
      resolve_sender_key
  sender_refused_at q f h k e = ground arith

only_bindable :
    (id : String) (db : Db) (q : Queue)
    → IsKeyed db
    → find_row (λ x. x.sender_id == id) db.queues ≡ some q
    → is_bindable id q ≡ true
    → count (is_bindable id) db.queues ≡ 1
only_bindable id db q v f h = omega (
  arith,
  count_le (λ x. x.sender_id == id) (is_bindable id) (λ x k. ground arith) db.queues,
  v.senders id,
  count_pos (λ x. x.sender_id == id) (is_bindable id) db.queues q f h,
)

pub sender_refused :
    (lib : Library) (r : Request) (s s' : Server) (resp : Response)
    → IsKeyed s.db
    → authorize_sender lib r s ≡ (reply resp, s')
    → s'.db ≡ s.db
sender_refused lib r s s' resp v e =
    elim (Option-cases (find_row (λ x. x.sender_id == r.path_value) s.db.queues)) [
      | inl f ↦ sender_not_found lib r s s' resp f e
      | inr (q, f) ↦
          sender_refused_at lib r s s' resp q f (only_bindable r.path_value s.db q v f)
            (find_row-holds (λ (x : Queue). x.sender_id == r.path_value) s.db.queues q f) e
    ]

module _ (lib : Library) (r : Request) (s s' : Server) (resp : Response)
    (h : resp.status ≡ 401) where
  register_refused : handle_register lib r s ≡ (reply resp, s') → s'.db ≡ s.db
  unfolding handle_register wake_account_devices
  register_refused e = ground (arith, h)

  send_refused : IsKeyed s.db → handle_send lib r s ≡ (reply resp, s') → s'.db ≡ s.db
  unfolding handle_send parse_send wake_queue_owner
  send_refused v e = ground (arith, h, sender_refused lib r s s' resp v)

  revoke_refused : handle_revoke lib r s ≡ (reply resp, s') → s'.db ≡ s.db
  unfolding handle_revoke find_target wake_target wake_account_devices
  revoke_refused e = ground (arith, h, signature_refused lib r s s' resp)

  create_invitation_refused : handle_create_invitation lib r s ≡ (reply resp, s') → s'.db ≡ s.db
  unfolding handle_create_invitation wake_account_devices
  create_invitation_refused e = ground (arith, h, signature_refused lib r s s' resp)

  list_invitations_refused : handle_list_invitations lib r s ≡ (reply resp, s') → s'.db ≡ s.db
  unfolding handle_list_invitations
  list_invitations_refused e = ground (arith, h, signature_refused lib r s s' resp)

  revoke_invitation_refused : handle_revoke_invitation lib r s ≡ (reply resp, s') → s'.db ≡ s.db
  unfolding handle_revoke_invitation
  revoke_invitation_refused e = ground (arith, h, signature_refused lib r s s' resp)

  list_devices_refused : handle_list_devices lib r s ≡ (reply resp, s') → s'.db ≡ s.db
  unfolding handle_list_devices
  list_devices_refused e = ground (arith, h, signature_refused lib r s s' resp)

  get_quota_refused : handle_get_quota lib r s ≡ (reply resp, s') → s'.db ≡ s.db
  unfolding handle_get_quota
  get_quota_refused e = ground (arith, h, signature_refused lib r s s' resp)

  set_role_refused : handle_set_role lib r s ≡ (reply resp, s') → s'.db ≡ s.db
  unfolding handle_set_role wake_account_devices
  set_role_refused e = ground (arith, h, signature_refused lib r s s' resp)

  update_push_refused : handle_update_push lib r s ≡ (reply resp, s') → s'.db ≡ s.db
  unfolding handle_update_push
  update_push_refused e = ground (arith, h, signature_refused lib r s s' resp)

  append_statement_refused : handle_append_statement lib r s ≡ (reply resp, s') → s'.db ≡ s.db
  unfolding handle_append_statement
  append_statement_refused e = ground (arith, h, signature_refused lib r s s' resp)

  list_statements_refused : handle_list_statements lib r s ≡ (reply resp, s') → s'.db ≡ s.db
  unfolding handle_list_statements
  list_statements_refused e = ground (arith, h, signature_refused lib r s s' resp)

  set_bundle_refused : handle_set_bundle lib r s ≡ (reply resp, s') → s'.db ≡ s.db
  unfolding handle_set_bundle
  set_bundle_refused e = ground (arith, h, signature_refused lib r s s' resp)

  get_bundle_refused : handle_get_bundle lib r s ≡ (reply resp, s') → s'.db ≡ s.db
  unfolding handle_get_bundle
  get_bundle_refused e = ground (arith, h, signature_refused lib r s s' resp)

  create_queue_refused : handle_create_queue lib r s ≡ (reply resp, s') → s'.db ≡ s.db
  unfolding handle_create_queue
  create_queue_refused e = ground (arith, h, signature_refused lib r s s' resp)

  recv_refused : handle_recv lib r s ≡ (reply resp, s') → s'.db ≡ s.db
  unfolding handle_recv
  recv_refused e = ground (arith, h, recipient_refused lib r s s' resp)

  ack_refused : handle_ack lib r s ≡ (reply resp, s') → s'.db ≡ s.db
  unfolding handle_ack
  ack_refused e = ground (arith, h, recipient_refused lib r s s' resp)

  retire_refused : handle_retire lib r s ≡ (reply resp, s') → s'.db ≡ s.db
  unfolding handle_retire
  retire_refused e = ground (arith, h, recipient_refused lib r s s' resp)

  set_queue_quota_refused : handle_set_queue_quota lib r s ≡ (reply resp, s') → s'.db ≡ s.db
  unfolding handle_set_queue_quota
  set_queue_quota_refused e = ground (arith, h, recipient_refused lib r s s' resp)

-- A request that is answered by 401, on any route, leaves the database as it was, if its keys are
-- unique.
pub unauthorized-unchanged :
    (lib : Library) (to : Route) (r : Request) (s s' : Server) (resp : Response)
    → IsKeyed s.db
    → route lib to r s ≡ (reply resp, s')
    → resp.status ≡ 401
    → s'.db ≡ s.db
unfolding route
unauthorized-unchanged lib Route.health r s s' resp v e h = ground (arith, h)
unauthorized-unchanged lib Route.send r s s' resp v e h = send_refused lib r s s' resp h v e
unauthorized-unchanged lib Route.register r s s' resp v e h = register_refused lib r s s' resp h e
unauthorized-unchanged lib Route.revoke r s s' resp v e h = revoke_refused lib r s s' resp h e
unauthorized-unchanged lib Route.create_invitation r s s' resp v e h =
    create_invitation_refused lib r s s' resp h e
unauthorized-unchanged lib Route.list_invitations r s s' resp v e h =
    list_invitations_refused lib r s s' resp h e
unauthorized-unchanged lib Route.revoke_invitation r s s' resp v e h =
    revoke_invitation_refused lib r s s' resp h e
unauthorized-unchanged lib Route.list_devices r s s' resp v e h =
    list_devices_refused lib r s s' resp h e
unauthorized-unchanged lib Route.get_quota r s s' resp v e h = get_quota_refused lib r s s' resp h e
unauthorized-unchanged lib Route.set_role r s s' resp v e h = set_role_refused lib r s s' resp h e
unauthorized-unchanged lib Route.update_push r s s' resp v e h =
    update_push_refused lib r s s' resp h e
unauthorized-unchanged lib Route.append_statement r s s' resp v e h =
    append_statement_refused lib r s s' resp h e
unauthorized-unchanged lib Route.list_statements r s s' resp v e h =
    list_statements_refused lib r s s' resp h e
unauthorized-unchanged lib Route.set_bundle r s s' resp v e h =
    set_bundle_refused lib r s s' resp h e
unauthorized-unchanged lib Route.get_bundle r s s' resp v e h =
    get_bundle_refused lib r s s' resp h e
unauthorized-unchanged lib Route.create_queue r s s' resp v e h =
    create_queue_refused lib r s s' resp h e
unauthorized-unchanged lib Route.recv r s s' resp v e h = recv_refused lib r s s' resp h e
unauthorized-unchanged lib Route.ack r s s' resp v e h = ack_refused lib r s s' resp h e
unauthorized-unchanged lib Route.retire r s s' resp v e h = retire_refused lib r s s' resp h e
unauthorized-unchanged lib Route.set_queue_quota r s s' resp v e h =
    set_queue_quota_refused lib r s s' resp h e
