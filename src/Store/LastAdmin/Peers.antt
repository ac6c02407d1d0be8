-- ===== src/Store/LastAdmin/Peers.antt =====
-- The last-admin rule over histories in which every revocation is made by a live device of the
-- target's account.
use sund.Prelude.{
  ◌<◌, ◌≤◌, ◌≡◌, ◌≢◌, refl, sym, subst, ap, inl, inr, Bool, true, false, some, none, List, [], ◌∷◌,
  ◌++◌, String, ◌==◌, Bytes, arith, eq_iff, Option-cases,
}
use sund.Sql.{update, count}
use sund.Sql.Laws.{count-append, count-update, find_row-holds}
use sund.Sql.Keys.{Holds}
use sund.Sql.Unique.{count_pos}
use sund.Store.Tables.{Db, Device, Result, ok, device_at}
use sund.Store.Devices.{touch_last_seen, update_push_endpoint, consume}
use sund.Store.Roles.{is_other_live, revoke_device}
use sund.Store.Queues.{retire_queue}
use sund.Store.Messages.{insert_message, drain_messages, delete_messages, purge_expired}
use sund.Store.Statements.{log_statement}
use sund.Store.Commands.{Command, after, execute, run}
use sund.Store.Shapes.{
  after_induction, create_account_commits, create_invitation_commits, revoke_invitation_commits,
  register_device_commits, promote_device_commits, create_queue_commits, bind_sender_key_commits,
  append_message_commits, set_device_quota_commits, set_queue_quota_commits,
  append_statement_commits, set_bundle_commits,
}
use sund.Store.Keyed.{IsKeyed, execute-IsKeyed}
use sund.Store.LastAdmin.{is_admin_of, live_admins, revoke_target, target_exists}
use sund.Store.LastAdmin.Demotion.{admins-le-promote, set_device_role-admins}

-- The caller is another device than the target, of its account, and not revoked.
abbrev pub IsPeer : Db → String → String → Type 0
IsPeer db caller id =
    (caller ≢ id)
    × Holds
        (λ t.
          Holds (λ c. (c.account_id ≡ t.account_id) × (c.revoked ≡ false)) (device_at db caller))
        (device_at db id)

abbrev pub ByPeer : Db → Command → Type 0
ByPeer db (Command.revokes caller id) = IsPeer db caller id
ByPeer db _ = Unit

module _ (db : Db) (account : String) (h : 0 < live_admins db account) where
  -- Only the table of the devices is counted.
  same_devices : (db' : Db) → db'.devices ≡ db.devices → 0 < live_admins db' account
  unfolding live_admins
  same_devices db' e = subst (λ ds. 0 < count (is_admin_of account) ds) (sym e) h

  update_devices :
      (p : Device → Bool) (f : Device → Device)
      → ((d : Device) → is_admin_of account (f d) ≡ is_admin_of account d)
      → 0 < live_admins (record db { devices = update p f db.devices }) account
  unfolding live_admins
  update_devices p f same = omega (arith, h, count-update p (is_admin_of account) f same db.devices)

  keeps :
      {A : Type 0} (r : Result (A × Db))
      → ((a : A) (db' : Db) → r ≡ ok (a, db') → 0 < live_admins db' account)
      → 0 < live_admins (after db r) account
  keeps r k = after_induction (λ x. 0 < live_admins x account) db r h k

  -- A device more is no admin fewer.
  insert_device :
      (db' : Db) (d : Device) → db'.devices ≡ db.devices ++ d ∷ [] → 0 < live_admins db' account
  unfolding live_admins
  insert_device db' d e =
      subst (λ ds. 0 < count (is_admin_of account) ds) (sym e)
        (omega (arith, h, count-append (is_admin_of account) db.devices (d ∷ [])))

  -- The peer that revokes is itself a device that is left.
  peer_counted :
      (caller id : String) (d : Device)
      → IsPeer db caller id
      → device_at db id ≡ some d
      → d.account_id ≡ account
      → 1 ≤ count (is_other_live account id) db.devices
  peer_counted caller id d peer f same = elim (Option-cases (device_at db caller)) [
    | inl g ↦ absurd (elim_none g)
    | inr (c, g) ↦
        count_pos (λ x. x.id == caller) (is_other_live account id) db.devices c g
          (is_left c g (at_peer c g))
  ]
    where
      at_target :
          Holds (λ c. (c.account_id ≡ d.account_id) × (c.revoked ≡ false)) (device_at db caller)
      at_target =
          subst
            (Holds (λ t.
              Holds (λ c. (c.account_id ≡ t.account_id) × (c.revoked ≡ false))
                (device_at db caller)))
            f peer.1

      elim_none : device_at db caller ≡ none → ⊥
      elim_none g =
          subst (Holds (λ c. (c.account_id ≡ d.account_id) × (c.revoked ≡ false))) g at_target

      at_peer :
          (c : Device)
          → device_at db caller ≡ some c
          → (c.account_id ≡ d.account_id) × (c.revoked ≡ false)
      at_peer c g =
          subst (Holds (λ c. (c.account_id ≡ d.account_id) × (c.revoked ≡ false))) g at_target

      is_left :
          (c : Device)
          → device_at db caller ≡ some c
          → (c.account_id ≡ d.account_id) × (c.revoked ≡ false)
          → is_other_live account id c ≡ true
      is_left c g k = ground (
        arith,
        peer.0,
        eq_iff c.id id,
        eq_iff c.id caller,
        eq_iff c.account_id account,
        find_row-holds (λ (x : Device). x.id == caller) db.devices c,
      )

  peer_revokes :
      (caller id : String) {db' : Db} {u : Unit {0}}
      → IsKeyed db
      → IsPeer db caller id
      → revoke_device caller id db ≡ ok (u, db')
      → 0 < live_admins db' account
  peer_revokes caller id v peer e = elim (Option-cases (device_at db id)) [
    | inl f ↦ absurd (target_exists db caller id peer.0 e f)
    | inr (d, f) ↦ elim (revoke_target db caller id account d v peer.0 e f h) [
      | inl n ↦ n
      | inr n ↦ absurd (omega (arith, n.1, peer_counted caller id d peer f n.0))
    ]
  ]

module _ (sha256 : Bytes → Bytes) (account : String) where
  execute-admins :
      (c : Command) (db : Db)
      → IsKeyed db
      → ByPeer db c
      → 0 < live_admins db account
      → 0 < live_admins (execute sha256 c db) account
  unfolding execute consume touch_last_seen update_push_endpoint retire_queue drain_messages
      purge_expired delete_messages insert_message log_statement
  execute-admins (Command.creates_account class bytes mode now random) db v p h =
      keeps db account h _ λ a db' e.
        same_devices db account h db'
          (ap (λ x. x.devices) (create_account_commits db class bytes mode now random e))
  execute-admins (Command.invites acc ttl role token random now) db v p h =
      keeps db account h _ λ a db' e.
        same_devices db account h db' (
          ap (λ x. x.devices) (create_invitation_commits db sha256 acc ttl role token random now e))
  execute-admins (Command.uninvites acc id) db v p h = keeps db account h _ λ a db' e.
      same_devices db account h db' (ap (λ x. x.devices) (revoke_invitation_commits db acc id e))
  execute-admins (Command.registers token key endpoint capabilities random now) db v p h =
      keeps db account h _ λ d db' e. insert_device db account h db' d (
        ap (λ x. x.devices)
          (register_device_commits db sha256 token key endpoint capabilities random now e))
  execute-admins (Command.touches id now) db v p h = update_devices db account h _ _ (λ d. refl)
  execute-admins (Command.sets_endpoint id endpoint) db v p h =
      update_devices db account h _ _ (λ d. refl)
  execute-admins (Command.revokes caller id) db v p h =
      keeps db account h _ λ u db' e. peer_revokes db account h caller id v p e
  execute-admins (Command.sets_role acc id role) db v p h =
      keeps db account h _ λ u db' e. set_device_role-admins db acc id role account v e h
  execute-admins (Command.promotes id) db v p h = keeps db account h _ λ u db' e.
      subst (λ x. 0 < live_admins x account) (sym (promote_device_commits db id e))
        (omega (arith, h, admins-le-promote db id account))
  execute-admins (Command.creates_queue owner key random random' now) db v p h =
      keeps db account h _ λ q db' e.
        same_devices db account h db'
          (ap (λ x. x.devices) (create_queue_commits db owner key random random' now e))
  execute-admins (Command.binds sender key) db v p h = keeps db account h _ λ b db' e.
      same_devices db account h db' (ap (λ x. x.devices) (bind_sender_key_commits db sender key e))
  execute-admins (Command.retires id) db v p h = same_devices db account h _ refl
  execute-admins (Command.appends id payload ttl random now) db v p h =
      keeps db account h _ λ m db' e.
        same_devices db account h db'
          (ap (λ x. x.devices) (append_message_commits db id payload ttl random now e))
  execute-admins (Command.drains id now) db v p h = same_devices db account h _ refl
  execute-admins (Command.deletes id []) db v p h = h
  execute-admins (Command.deletes id (i ∷ ids)) db v p h = same_devices db account h _ refl
  execute-admins (Command.purges now) db v p h = same_devices db account h _ refl
  execute-admins (Command.caps_device id bytes) db v p h = keeps db account h _ λ u db' e.
      subst (λ x. 0 < live_admins x account) (sym (set_device_quota_commits db id bytes e))
        (update_devices db account h _ _ (λ d. refl))
  execute-admins (Command.caps_queue id bytes) db v p h = keeps db account h _ λ u db' e.
      same_devices db account h db' (ap (λ x. x.devices) (set_queue_quota_commits db id bytes e))
  execute-admins (Command.states acc blob now) db v p h = keeps db account h _ λ s db' e.
      same_devices db account h db'
        (ap (λ x. x.devices) (append_statement_commits db acc blob now e))
  execute-admins (Command.sets_bundle id blob now) db v p h = keeps db account h _ λ u db' e.
      same_devices db account h db' (ap (λ x. x.devices) (set_bundle_commits db id blob now e))

  -- Every revocation of the history is a peer's, at the time when it is made.
  abbrev pub AllByPeers : Db → List Command → Type 0
  AllByPeers db [] = Unit
  AllByPeers db (c ∷ cs) = ByPeer db c × AllByPeers (execute sha256 c db) cs

  -- In a history of any commands, where each revocation is made by a device of the target's
  -- account that is not the target and not itself revoked by then, an account that has an admin
  -- always has one.
  pub run-admins :
      (cs : List Command) (db : Db)
      → IsKeyed db
      → AllByPeers db cs
      → 0 < live_admins db account
      → 0 < live_admins (run sha256 cs db) account
  unfolding run
  run-admins [] db v p h = h
  run-admins (c ∷ cs) db v p h =
      run-admins cs _ (execute-IsKeyed sha256 c db v) p.1 (execute-admins c db v p.0 h)
