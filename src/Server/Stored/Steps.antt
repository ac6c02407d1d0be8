-- ===== src/Server/Stored/Steps.antt =====
-- The steps that the handlers of internal/server share, with the commands that they amount to.
use sund.Prelude.{
  ◌≡◌, refl, subst, Bool, true, false, String, Bytes, if◌then◌else◌, not, ◌==◌, arith, ℤ,
}
use sund.Store.Tables.{Db, Device, Queue, Result}
use sund.Store.Accounts.{account_quota_bytes}
use sund.Store.Devices.{get_device, touch_last_seen}
use sund.Store.Queues.{get_queue_by_recipient, get_queue_by_sender, bind_sender_key}
use sund.Store.Commands.{Command, after, execute}
use sund.Server.Types.{Library, Request, Server, internal_error, Priority, give}
use sund.Server.Auth.{SigEnvelope, extract_signature, verify_and_record}
use sund.Server.Push.{wake_queue_owner, wake_account_devices}
use sund.Server.Transport.{find_live, resolve_sender_key, bind_if, parse_send}
use sund.Server.Devices.{require_admin_role, find_target, wake_target}
use sund.Server.Stored.{
  Reaches, Reaches-refl, by_command, Stored, Safe, ◌>>=◌, ◌>>◌, unchanged, gives, reads, or_replies,
  reads_store, runs_store, requires, modifies_db,
}

module _ (lib : Library) where
  pub verifies-db :
      (r : Request) (env : SigEnvelope) (principal : String) (key : Bytes) (s : Server)
      → (verify_and_record lib r env principal key s).1.db ≡ s.db
  unfolding verify_and_record
  verifies-db r env principal key s = ground arith

  unfoldable pub verifies : Request → SigEnvelope → String → Bytes → Safe lib.sha256 (Unit {0})
  verifies r env principal key =
      unchanged (verify_and_record lib r env principal key) (verifies-db r env principal key)

  pub finds_live-db : (found : Result Queue) (s : Server) → (find_live found s).1.db ≡ s.db
  finds_live-db found s = ground arith

  unfoldable pub finds_live : Result Queue → Safe lib.sha256 Queue
  finds_live found = unchanged (find_live found) (finds_live-db found)

  pub requires_admin_role-db : (d : Device) (s : Server) → (require_admin_role d s).1.db ≡ s.db
  requires_admin_role-db d s = ground arith

  unfoldable pub requires_admin_role : Device → Safe lib.sha256 (Unit {0})
  requires_admin_role d = unchanged (require_admin_role d) (requires_admin_role-db d)

  pub requires_admin_unless-db :
      (is_self : Bool) (d : Device) (s : Server)
      → ((if is_self then give tt else require_admin_role d) s).1.db ≡ s.db
  requires_admin_unless-db is_self d s = ground arith

  unfoldable pub requires_admin_unless : Bool → Device → Safe lib.sha256 (Unit {0})
  requires_admin_unless is_self d =
      unchanged (if is_self then give tt else require_admin_role d)
        (requires_admin_unless-db is_self d)

  pub reads_account :
      (id : String) (db : Db) → Reaches lib.sha256 db (after db (account_quota_bytes id db))
  unfolding account_quota_bytes
  reads_account id db = subst (Reaches lib.sha256 db) (ground arith) (Reaches-refl lib.sha256 db)

  unfoldable pub wakes_account : String → String → Safe lib.sha256 (Unit {0})
  unfolding wake_account_devices
  wakes_account account except = unchanged (wake_account_devices account except) λ s. refl

  pub wakes_owner-db :
      (owner : String) (priority : Priority) (s : Server)
      → (wake_queue_owner owner priority s).1.db ≡ s.db
  unfolding wake_queue_owner
  wakes_owner-db owner priority s = ground arith

  unfoldable pub wakes_owner : String → Priority → Safe lib.sha256 (Unit {0})
  wakes_owner owner priority =
      unchanged (wake_queue_owner owner priority) (wakes_owner-db owner priority)

  pub wakes_target-db :
      (endpoint : String) (is_self : Bool) (s : Server)
      → (wake_target endpoint is_self s).1.db ≡ s.db
  unfolding wake_target
  wakes_target-db endpoint is_self s = ground arith

  unfoldable pub wakes_target : String → Bool → Safe lib.sha256 (Unit {0})
  wakes_target endpoint is_self =
      unchanged (wake_target endpoint is_self) (wakes_target-db endpoint is_self)

  pub finds_target-db :
      (caller : Device) (id : String) (s : Server) → (find_target caller id s).1.db ≡ s.db
  unfolding find_target
  finds_target-db caller id s = ground arith

  unfoldable pub finds_target : Device → String → Safe lib.sha256 Device
  finds_target caller id = unchanged (find_target caller id) (finds_target-db caller id)

  pub parses_send-db : (body : Bytes) (s : Server) → (parse_send lib body s).1.db ≡ s.db
  unfolding parse_send
  parses_send-db body s = ground arith

  unfoldable pub parses_send : Bytes → Safe lib.sha256 (Bytes × ℤ × Bool)
  parses_send body = unchanged (parse_send lib body) (parses_send-db body)

  unfoldable pub requires_signature : Request → Safe lib.sha256 Device
  unfolding execute verifies
  requires_signature r = do
    requires (not (r.device_id == "")) 401 "unauthorized"
    skew ← reads (λ s. s.clock_skew)
    env ← or_replies (extract_signature lib r skew) 401 "unauthorized"
    dev ← reads_store (λ db. get_device db r.device_id) (λ _. (401, "unauthorized"))
    requires (not dev.revoked) 401 "unauthorized"
    verifies r env r.device_id dev.public_key
    modifies_db (touch_last_seen r.device_id r.time_stored)
        (by_command lib.sha256 (Command.touches r.device_id r.time_stored))
    gives dev

  binds_if : Bool → String → Bytes → Safe lib.sha256 (Unit {0})
  unfolding execute
  binds_if false sender_id key = gives tt
  binds_if true sender_id key = do
    bound ←
        runs_store (bind_sender_key sender_id key) internal_error
          (by_command lib.sha256 (Command.binds sender_id key))
    requires bound 401 "unauthorized"

  pub bind_if-Stored :
      (b : Bool) (sender_id : String) (key : Bytes)
      → Stored lib.sha256 (bind_if lib b sender_id key)
  unfolding bind_if binds_if
  bind_if-Stored true sender_id key = (binds_if true sender_id key).stored
  bind_if-Stored false sender_id key = (binds_if false sender_id key).stored

  unfoldable pub authorizes_sender : Request → Safe lib.sha256 (Queue × Bytes)
  unfolding finds_live verifies
  authorizes_sender r = do
    found ← reads (λ s. get_queue_by_sender s.db r.path_value)
    q ← finds_live found
    skew ← reads (λ s. s.clock_skew)
    env ← or_replies (extract_signature lib r skew) 401 "unauthorized"
    resolved ← or_replies (resolve_sender_key lib r q) 401 "unauthorized"
    verifies r env r.path_value resolved.0
    record {
      handler = bind_if lib resolved.1 r.path_value resolved.0;
      stored = bind_if-Stored resolved.1 r.path_value resolved.0;
    }
    gives (q, env.body)

  unfoldable pub authorizes_recipient : Request → Safe lib.sha256 (Queue × Bytes)
  unfolding finds_live verifies
  authorizes_recipient r = do
    found ← reads (λ s. get_queue_by_recipient s.db r.path_value)
    q ← finds_live found
    skew ← reads (λ s. s.clock_skew)
    env ← or_replies (extract_signature lib r skew) 401 "unauthorized"
    verifies r env r.path_value q.recipient_key
    gives (q, env.body)

  pub of_steps : (m : Safe lib.sha256 (Unit {0})) → Stored lib.sha256 m.handler
  of_steps m = m.stored
