-- ===== src/Server/History.antt =====
-- internal/server/server.go: runs of requests and ticks of the purge loop, as histories of the store.
use sund.Prelude.{List, [], ◌∷◌}
use sund.Store.Commands.{Command, execute}
use sund.Server.Types.{Library, Request, Server}
use sund.Server.Routes.{Route, route, Event, request, tick, serve_event, serve_all}
use sund.Server.Stored.{Reaches, Reaches-refl, Reaches-trans, by_command, Stored}
use sund.Server.Stored.Queues.{
  send-Stored, recv-Stored, ack-Stored, retire-Stored, set_queue_quota-Stored, create_queue-Stored,
}
use sund.Server.Stored.Devices.{
  register-Stored, revoke-Stored, create_invitation-Stored, list_invitations-Stored,
  revoke_invitation-Stored, list_devices-Stored, get_quota-Stored, set_role-Stored,
}
use sund.Server.Stored.Records.{
  update_push-Stored, append_statement-Stored, list_statements-Stored, set_bundle-Stored,
  get_bundle-Stored,
}

module _ (lib : Library) where
  route-Stored : (to : Route) (r : Request) → Stored lib.sha256 (route lib to r)
  unfolding route
  route-Stored Route.health r = λ s. Reaches-refl lib.sha256 s.db
  route-Stored Route.send r = send-Stored lib r
  route-Stored Route.recv r = recv-Stored lib r
  route-Stored Route.ack r = ack-Stored lib r
  route-Stored Route.retire r = retire-Stored lib r
  route-Stored Route.set_queue_quota r = set_queue_quota-Stored lib r
  route-Stored Route.create_queue r = create_queue-Stored lib r
  route-Stored Route.register r = register-Stored lib r
  route-Stored Route.revoke r = revoke-Stored lib r
  route-Stored Route.create_invitation r = create_invitation-Stored lib r
  route-Stored Route.list_invitations r = list_invitations-Stored lib r
  route-Stored Route.revoke_invitation r = revoke_invitation-Stored lib r
  route-Stored Route.list_devices r = list_devices-Stored lib r
  route-Stored Route.get_quota r = get_quota-Stored lib r
  route-Stored Route.set_role r = set_role-Stored lib r
  route-Stored Route.update_push r = update_push-Stored lib r
  route-Stored Route.append_statement r = append_statement-Stored lib r
  route-Stored Route.list_statements r = list_statements-Stored lib r
  route-Stored Route.set_bundle r = set_bundle-Stored lib r
  route-Stored Route.get_bundle r = get_bundle-Stored lib r

  event-Stored : (e : Event) (s : Server) → Reaches lib.sha256 s.db (serve_event lib e s).db
  unfolding serve_event execute
  event-Stored (request to r) s = route-Stored to r s
  event-Stored (tick now) s = by_command lib.sha256 (Command.purges now) s.db

  -- Whatever requests and ticks the server handles, the database is one that a list of commands of
  -- the store makes of the first one.
  pub serve_all-Reaches :
      (es : List Event) (s : Server) → Reaches lib.sha256 s.db (serve_all lib es s).db
  unfolding serve_all
  serve_all-Reaches [] s = Reaches-refl lib.sha256 s.db
  serve_all-Reaches (e ∷ es) s =
      Reaches-trans lib.sha256 _ _ _ (event-Stored e s) (serve_all-Reaches es _)
