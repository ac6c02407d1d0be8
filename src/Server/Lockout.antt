-- ===== src/Server/Lockout.antt =====
-- internal/server/auth.go and devices.go: requireSignature, and what handleRevoke does to it.
use sund.Prelude.{
  ℕ, ◌+◌, ◌≤◌, ◌≡◌, refl, sym, subst, true, false, none, some, List, String, ◌==◌, arith, eq_iff,
  inl, inr, Option-cases,
}
use sund.Sql.Laws.{find_row-holds}
use sund.Sql.Keys.{Holds, Holds-update_to}
use sund.Store.Shapes.{revoke_device_commits}
use sund.Store.Tables.{Db, Device, ok, device_at}
use sund.Store.Devices.{get_device, touch_last_seen}
use sund.Store.Roles.{revoke_device, kill_device}
use sund.Store.Forward.{IsDead}
use sund.Store.History.{run-Forward}
use sund.Server.Types.{Library, Request, Server, Outcome, next, reply, Response, Body, error}
use sund.Server.Nonces.{check_and_add}
use sund.Server.Auth.{
  SigEnvelope, extract_signature, verify_and_record, require_signature, is_signed, take,
  max_body_bytes, nonce_key,
}
use sund.Server.Devices.{handle_revoke, find_target, wake_target}
use sund.Server.Push.{wake_account_devices}
use sund.Server.Routes.{Event, serve_all}
use sund.Server.History.{serve_all-Reaches}

-- The request was made by the device: its signature by the device's key covers the method, the path
-- and the body, its timestamp is within the skew, its nonce is new and now remembered, and the
-- device is not revoked. The database is only told when it was seen.
pub record IsAuthentic (lib : Library) (r : Request) (s : Server) (d : Device) (s' : Server)
    : Type 0 where
  pub env : SigEnvelope
  pub parsed : extract_signature lib r s.clock_skew ≡ some env
  pub covers : env.body ≡ take max_body_bytes r.body
  pub not_early : r.time_checked ≤ env.signed_at + s.clock_skew
  pub not_late : env.signed_at ≤ r.time_checked + s.clock_skew
  pub known : device_at s.db r.device_id ≡ some d
  pub live : d.revoked ≡ false
  pub signed : is_signed lib r env d.public_key ≡ true
  pub fresh :
      check_and_add
        (nonce_key lib r.device_id env.nonce)
        (env.signed_at + s.clock_skew)
        r.time_recorded
        s.nonces
      ≡ (true, s'.nonces)
  pub kept : s'.db ≡ touch_last_seen r.device_id r.time_stored s.db

module _ (lib : Library) (r : Request) where
  window :
      (skew : ℕ) (env : SigEnvelope)
      → extract_signature lib r skew ≡ some env
      → (env.body ≡ take max_body_bytes r.body)
        × (r.time_checked ≤ env.signed_at + skew)
        × (env.signed_at ≤ r.time_checked + skew)
  unfolding extract_signature
  window skew env e = ground arith

  passed :
      (s s' : Server) (d : Device) (env : SigEnvelope)
      → require_signature lib r s ≡ (next d, s')
      → extract_signature lib r s.clock_skew ≡ some env
      → (device_at s.db r.device_id ≡ some d)
        × (d.revoked ≡ false)
        × (is_signed lib r env d.public_key ≡ true)
        × (check_and_add
              (nonce_key lib r.device_id env.nonce)
              (env.signed_at + s.clock_skew)
              r.time_recorded
              s.nonces
            ≡ (true, s'.nonces))
        × (s'.db ≡ touch_last_seen r.device_id r.time_stored s.db)
  unfolding require_signature get_device verify_and_record
  passed s s' d env e f = ground arith

  not_parsed :
      (s s' : Server) (d : Device)
      → require_signature lib r s ≡ (next d, s')
      → extract_signature lib r s.clock_skew ≡ none
      → ⊥
  unfolding require_signature
  not_parsed s s' d e f = ground arith

  -- A request that requireSignature lets through is authentic.
  pub require_signature-IsAuthentic :
      (s s' : Server) (d : Device)
      → require_signature lib r s ≡ (next d, s')
      → IsAuthentic lib r s d s'
  require_signature-IsAuthentic s s' d e =
      elim (Option-cases (extract_signature lib r s.clock_skew)) [
        | inl f ↦ absurd (not_parsed s s' d e f)
        | inr (env, f) ↦
            let (covers, early, late) = window s.clock_skew env f in
            let (known, live, signed, fresh, kept) = passed s s' d env e f in
            record {
              env = env;
              parsed = f;
              covers = covers;
              not_early = early;
              not_late = late;
              known = known;
              live = live;
              signed = signed;
              fresh = fresh;
              kept = kept;
            }
      ]

  dead_found :
      (s : Server) (d : Device)
      → device_at s.db r.device_id ≡ some d
      → d.revoked ≡ true
      → require_signature lib r s
        ≡ (reply (record { status = 401; body = error "unauthorized" }), s)
  unfolding require_signature get_device
  dead_found s d e h = ground arith

  dead_refused :
      (s : Server)
      → IsDead s.db r.device_id
      → require_signature lib r s
        ≡ (reply (record { status = 401; body = error "unauthorized" }), s)
  dead_refused s h = elim (Option-cases (device_at s.db r.device_id)) [
    | inl e ↦ absurd (subst (Holds (λ d. d.revoked ≡ true)) e h)
    | inr (d, e) ↦ dead_found s d e (subst (Holds (λ d. d.revoked ≡ true)) e h)
  ]

  -- Once a device is revoked, no history of requests and purges lets a request in its name
  -- through: the response is 401 and the server is left as it was.
  pub revoked_locked_out :
      (es : List Event) (s : Server)
      → IsDead s.db r.device_id
      → require_signature lib r (serve_all lib es s)
        ≡ (reply (record { status = 401; body = error "unauthorized" }), serve_all lib es s)
  revoked_locked_out es s h =
      let (cs, e) = serve_all-Reaches lib es s in
      dead_refused (serve_all lib es s) (
        subst (λ db. IsDead db r.device_id) (sym e)
          ((run-Forward lib.sha256 cs s.db).dead r.device_id h))

  pub refused_401 :
      (s s' : Server) (resp : Response)
      → require_signature lib r s ≡ (reply resp, s')
      → resp.status ≡ 401
  unfolding require_signature verify_and_record
  refused_401 s s' resp e = ground arith

  refused_first :
      (s s₁ s' : Server) (resp : Response) (body : Body)
      → require_signature lib r s ≡ (reply resp, s₁)
      → resp.status ≡ 401
      → handle_revoke lib r s ≡ (reply (record { status = 200; body = body }), s')
      → ⊥
  unfolding handle_revoke
  refused_first s s₁ s' resp body e h f = ground arith

  revoke_done :
      (s s₁ s' : Server) (caller : Device) (body : Body)
      → require_signature lib r s ≡ (next caller, s₁)
      → handle_revoke lib r s ≡ (reply (record { status = 200; body = body }), s')
      → ((device_at s₁.db r.path_value ≡ none) → ⊥)
        × (revoke_device caller.id r.path_value s₁.db ≡ ok (tt, s'.db))
  unfolding handle_revoke find_target wake_target wake_account_devices get_device
  revoke_done s s₁ s' caller body e f = (λ g. ground arith, ground arith)

-- A device that is killed is found revoked.
kill_device-IsDead :
    (id : String) (db : Db) {d : Device} → device_at db id ≡ some d → IsDead (kill_device id db) id
unfolding kill_device
kill_device-IsDead id db {d} e =
    Holds-update_to (λ d. d.id ≡ id) (λ d. d.revoked ≡ true) (λ d. d.id == id) (λ d. d.id == id)
      (λ d. record d { revoked = true; push_endpoint = "" }) (λ d. refl)
      (λ d h. ground (arith, eq_iff d.id id)) db.devices
      (subst (Holds (λ d. d.id ≡ id)) (sym e)
        (ground (arith, eq_iff d.id id, find_row-holds (λ (x : Device). x.id == id) db.devices d)))

module _ (lib : Library) where
  revoke-kills :
      (r : Request) (s s' : Server) (body : Body)
      → handle_revoke lib r s ≡ (reply (record { status = 200; body = body }), s')
      → IsDead s'.db r.path_value
  revoke-kills r s s' body e = after_auth (require_signature lib r s) refl
    where
      after_auth :
          (o : Outcome Device × Server) → require_signature lib r s ≡ o → IsDead s'.db r.path_value
      after_auth (reply resp, s₁) f =
          absurd (refused_first lib r s s₁ s' resp body f (refused_401 lib r s s₁ resp f) e)
      after_auth (next caller, s₁) f =
          let (found, done) = revoke_done lib r s s₁ s' caller body f e in
          elim (Option-cases (device_at s₁.db r.path_value)) [
            | inl g ↦ absurd (found g)
            | inr (d, g) ↦
                subst (λ db. IsDead db r.path_value)
                  (sym (revoke_device_commits s₁.db caller.id r.path_value done))
                  (kill_device-IsDead r.path_value s₁.db g)
          ]

  -- After a revocation that was answered by 200, whatever requests and purges the server handles,
  -- a signed request in the name of the revoked device is answered by 401 and changes nothing.
  pub revocation_final :
      (r r' : Request) (s s' : Server) (body : Body) (es : List Event)
      → handle_revoke lib r s ≡ (reply (record { status = 200; body = body }), s')
      → r'.device_id ≡ r.path_value
      → require_signature lib r' (serve_all lib es s')
        ≡ (reply (record { status = 401; body = error "unauthorized" }), serve_all lib es s')
  revocation_final r r' s s' body es e same =
      revoked_locked_out lib r' es s' (subst (IsDead s'.db) (sym same) (revoke-kills r s s' body e))
