-- ===== src/Server/Routes.antt =====
-- internal/server/server.go: the routes of New, and the loop of RunPurgeLoop.
use sund.Prelude.{ℕ, List, [], ◌∷◌}
use sund.Store.Messages.{purge_expired}
use sund.Server.Types.{Library, Request, Server, Handler, healthy, respond}
use sund.Server.Devices.{
  handle_register, handle_revoke, handle_create_invitation, handle_list_invitations,
  handle_revoke_invitation, handle_list_devices, handle_get_quota, handle_set_role,
}
use sund.Server.Transport.{
  handle_create_queue, handle_send, handle_recv, handle_ack, handle_retire, handle_set_queue_quota,
}
use sund.Server.Push.{handle_update_push}
use sund.Server.Statements.{handle_append_statement, handle_list_statements}
use sund.Server.Bundles.{handle_set_bundle, handle_get_bundle}

pub data Route : Type 0 where
  health register list_devices revoke set_role get_bundle set_bundle : Route
  create_invitation list_invitations revoke_invitation update_push get_quota : Route
  append_statement list_statements create_queue send recv ack retire set_queue_quota : Route

module _ (lib : Library) where
  -- The handler of each route.
  unfoldable pub route : Route → Request → Handler (Unit {0})
  route health r = respond 200 healthy
  route register r = handle_register lib r
  route list_devices r = handle_list_devices lib r
  route revoke r = handle_revoke lib r
  route set_role r = handle_set_role lib r
  route get_bundle r = handle_get_bundle lib r
  route set_bundle r = handle_set_bundle lib r
  route create_invitation r = handle_create_invitation lib r
  route list_invitations r = handle_list_invitations lib r
  route revoke_invitation r = handle_revoke_invitation lib r
  route update_push r = handle_update_push lib r
  route get_quota r = handle_get_quota lib r
  route append_statement r = handle_append_statement lib r
  route list_statements r = handle_list_statements lib r
  route create_queue r = handle_create_queue lib r
  route send r = handle_send lib r
  route recv r = handle_recv lib r
  route ack r = handle_ack lib r
  route retire r = handle_retire lib r
  route set_queue_quota r = handle_set_queue_quota lib r

-- What moves the server: a request, or a tick of the purge loop at an instant.
pub data Event : Type 0 where
  request : Route → Request → Event
  tick : ℕ → Event

module _ (lib : Library) where
  unfoldable pub serve_event : Event → Server → Server
  unfolding route
  serve_event (request to r) s = (route lib to r s).1
  serve_event (tick now) s = record s { db = (purge_expired now s.db).1 }

  unfoldable pub serve_all : List Event → Server → Server
  unfolding serve_event
  serve_all [] s = s
  serve_all (e ∷ es) s = serve_all es (serve_event e s)
