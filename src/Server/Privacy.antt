-- ===== src/Server/Privacy.antt =====
-- internal/server/devices.go: the push endpoints in the list of the devices.
use sund.Prelude.{◌≡◌, ◌≢◌, refl, sym, subst, List, [], ◌∷◌, String, map, All, arith, eq_iff, ◌==◌}
use sund.Sql.Laws.{find_row-holds}
use sund.Store.Tables.{Device}
use sund.Store.Devices.{list_devices}
use sund.Server.Types.{
  Library, Request, Server, Outcome, next, reply, Response, devices, DeviceView,
}
use sund.Server.Auth.{require_signature}
use sund.Server.Devices.{to_device_view, handle_list_devices}
use sund.Server.Lockout.{require_signature-IsAuthentic, refused_401}

module _ (lib : Library) where
  views-private :
      (caller : String) (ds : List Device)
      → All (λ v. v.id ≢ caller → v.push_endpoint ≡ "") (map (to_device_view lib caller) ds)
  unfolding to_device_view
  views-private caller [] = tt
  views-private caller (d ∷ ds) =
      (λ h. ground (arith, eq_iff d.id caller, h), views-private caller ds)

  listed :
      (r : Request) (s s₁ s' : Server) (d : Device) (views : List DeviceView)
      → require_signature lib r s ≡ (next d, s₁)
      → handle_list_devices lib r s ≡ (reply (record { status = 200; body = devices views }), s')
      → views ≡ map (to_device_view lib d.id) (list_devices s₁.db d.account_id)
  unfolding handle_list_devices
  listed r s s₁ s' d views e f = ground arith

  unlisted :
      (r : Request) (s s₁ s' : Server) (resp : Response) (views : List DeviceView)
      → require_signature lib r s ≡ (reply resp, s₁)
      → resp.status ≡ 401
      → handle_list_devices lib r s ≡ (reply (record { status = 200; body = devices views }), s')
      → ⊥
  unfolding handle_list_devices
  unlisted r s s₁ s' resp views e h f = ground arith

  -- The list of the devices that a request gets holds the push endpoint of no device but the one
  -- that asks.
  pub list_devices-private :
      (r : Request) (s s' : Server) (views : List DeviceView)
      → handle_list_devices lib r s ≡ (reply (record { status = 200; body = devices views }), s')
      → All (λ v. v.id ≢ r.device_id → v.push_endpoint ≡ "") views
  list_devices-private r s s' views e = after_auth (require_signature lib r s) refl
    where
      after_auth :
          (o : Outcome Device × Server)
          → require_signature lib r s ≡ o
          → All (λ v. v.id ≢ r.device_id → v.push_endpoint ≡ "") views
      after_auth (reply resp, s₁) f =
          absurd (unlisted r s s₁ s' resp views f (refused_401 lib r s s₁ resp f) e)
      after_auth (next d, s₁) f =
          let asked : d.id ≡ r.device_id = ground (
            arith,
            eq_iff d.id r.device_id,
            find_row-holds (λ (x : Device). x.id == r.device_id) s.db.devices d
                (require_signature-IsAuthentic lib r s s₁ d f).known,
          ) in
          subst (λ id. All (λ v. v.id ≢ id → v.push_endpoint ≡ "") views) asked
            (subst (All (λ v. v.id ≢ d.id → v.push_endpoint ≡ ""))
              (sym (listed r s s₁ s' d views f e))
              (views-private d.id (list_devices s₁.db d.account_id)))
