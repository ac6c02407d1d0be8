-- ===== src/Store/Forward.antt =====
-- internal/store: revocations, retirements, consumed invitations and bound sender keys, from one
-- database to a later one.
use sund.Prelude.{
  ℕ, ◌≡◌, refl, ap, sym, subst, Bool, true, some, List, ◌++◌, String, ◌==◌, Bytes, arith,
}
use sund.Sql.{find_row, update}
use sund.Sql.Keys.{Holds, Holds-append, Holds-update}
use sund.Store.Tables.{Db, Invitation, Device, Queue, device_at, queue_at}
use sund.Store.Devices.{consume}
use sund.Store.Roles.{kill_device, write_role}
use sund.Store.Queues.{is_bindable}

abbrev pub IsDead : Db → String → Type 0
IsDead db id = Holds (λ d. d.revoked ≡ true) (device_at db id)

abbrev pub IsRetired : Db → String → Type 0
IsRetired db id = Holds (λ q. q.retired ≡ true) (queue_at db id)

abbrev pub IsBound : Db → String → Bytes → Type 0
IsBound db id key =
    Holds (λ q. q.sender_key ≡ some key) (find_row (λ q. q.sender_id == id) db.queues)

abbrev pub IsConsumed : Db → String → Type 0
IsConsumed db hash =
    Holds (λ i. i.consumed ≡ true) (find_row (λ i. i.token_hash == hash) db.invitations)

-- Nothing is taken back from `db` to `db'`.
pub record Forward (db db' : Db) : Type 0 where
  pub dead : (id : String) → IsDead db id → IsDead db' id
  pub retired : (id : String) → IsRetired db id → IsRetired db' id
  pub bound : (id : String) (key : Bytes) → IsBound db id key → IsBound db' id key
  pub consumed : (hash : String) → IsConsumed db hash → IsConsumed db' hash

pub Forward-refl : (db : Db) → Forward db db
Forward-refl db = record {
  dead = λ id h. h;
  retired = λ id h. h;
  bound = λ id key h. h;
  consumed = λ hash h. h;
}

pub Forward-trans : {a b c : Db} → Forward a b → Forward b c → Forward a c
Forward-trans f g = record {
  dead = λ id h. g.dead id (f.dead id h);
  retired = λ id h. g.retired id (f.retired id h);
  bound = λ id key h. g.bound id key (f.bound id key h);
  consumed = λ hash h. g.consumed hash (f.consumed hash h);
}

module _ (db : Db) where
  -- An update of devices that keeps ids and revocations.
  pub update_devices :
      (p : Device → Bool) (f : Device → Device)
      → ((d : Device) → (f d).id ≡ d.id)
      → ((d : Device) → d.revoked ≡ true → (f d).revoked ≡ true)
      → Forward db (record db { devices = update p f db.devices })
  update_devices p f same keep = record {
    dead = λ id. Holds-update _ _ p f (λ d. ap (λ i. i == id) (same d)) (λ d _. keep d) db.devices;
    retired = λ id h. h;
    bound = λ id key h. h;
    consumed = λ hash h. h;
  }

  -- An update of queues that keeps the ids, the retirements and the bound keys.
  pub update_queues :
      (p : Queue → Bool) (f : Queue → Queue)
      → ((q : Queue) → (f q).recipient_id ≡ q.recipient_id)
      → ((q : Queue) → (f q).sender_id ≡ q.sender_id)
      → ((q : Queue) → q.retired ≡ true → (f q).retired ≡ true)
      → ((q : Queue) (k : Bytes) → p q ≡ true → q.sender_key ≡ some k → (f q).sender_key ≡ some k)
      → Forward db (record db { queues = update p f db.queues })
  update_queues p f same_r same_s keep bound = record {
    dead = λ id h. h;
    retired =
        λ id. Holds-update _ _ p f (λ q. ap (λ i. i == id) (same_r q)) (λ q _. keep q) db.queues;
    bound = λ id key.
        Holds-update _ _ p f (λ q. ap (λ i. i == id) (same_s q)) (λ q. bound q key) db.queues;
    consumed = λ hash h. h;
  }

  pub update_invitations :
      (p : Invitation → Bool) (f : Invitation → Invitation)
      → ((i : Invitation) → (f i).token_hash ≡ i.token_hash)
      → ((i : Invitation) → i.consumed ≡ true → (f i).consumed ≡ true)
      → Forward db (record db { invitations = update p f db.invitations })
  update_invitations p f same keep = record {
    dead = λ id h. h;
    retired = λ id h. h;
    bound = λ id key h. h;
    consumed = λ hash.
        Holds-update _ _ p f (λ i. ap (λ j. j == hash) (same i)) (λ i _. keep i) db.invitations;
  }

  pub insert_devices : (ds : List Device) → Forward db (record db { devices = db.devices ++ ds })
  insert_devices ds = record {
    dead = λ id. Holds-append _ _ db.devices ds;
    retired = λ id h. h;
    bound = λ id key h. h;
    consumed = λ hash h. h;
  }

  pub insert_queues : (qs : List Queue) → Forward db (record db { queues = db.queues ++ qs })
  insert_queues qs = record {
    dead = λ id h. h;
    retired = λ id. Holds-append _ _ db.queues qs;
    bound = λ id key. Holds-append _ _ db.queues qs;
    consumed = λ hash h. h;
  }

  pub insert_invitations :
      (is : List Invitation) → Forward db (record db { invitations = db.invitations ++ is })
  insert_invitations is = record {
    dead = λ id h. h;
    retired = λ id h. h;
    bound = λ id key h. h;
    consumed = λ hash. Holds-append _ _ db.invitations is;
  }

  -- The other tables carry none of the four facts.
  pub other_tables :
      {db' : Db}
      → db' ≡ record db {
        accounts = db'.accounts;
        messages = db'.messages;
        message_seq = db'.message_seq;
        bundles = db'.bundles;
        statements = db'.statements;
      }
      → Forward db db'
  other_tables e = subst (Forward db) (sym e) (record {
    dead = λ id h. h;
    retired = λ id h. h;
    bound = λ id key h. h;
    consumed = λ hash h. h;
  })

module _ (db : Db) where
  pub kill_device-Forward : (id : String) → Forward db (kill_device id db)
  unfolding kill_device
  kill_device-Forward id =
      Forward-trans (other_tables db {db' = record db { messages = _; bundles = _ }} refl) (
        Forward-trans
          (update_queues _ (λ q. q.owner_device == id) (λ q. record q { retired = true })
            (λ q. refl) (λ q. refl) (λ q h. refl) (λ q k _ h. h))
          (update_devices _ (λ d. d.id == id) (λ d. record d { revoked = true; push_endpoint = "" })
            (λ d. refl) (λ d h. refl)))

  pub write_role-Forward : (id role : String) → Forward db (write_role id role db)
  unfolding write_role
  write_role-Forward id role = update_devices db _ _ (λ d. refl) (λ d h. h)

  pub consume-Forward : (hash : String) (now : ℕ) → Forward db (consume hash now db)
  unfolding consume
  consume-Forward hash now = update_invitations db _ _ (λ i. refl) (λ i h. refl)

-- A bound queue is not open, so the bind does not reach it.
pub bound_not_open :
    (id : String) (q : Queue) (k key : Bytes)
    → is_bindable id q ≡ true
    → q.sender_key ≡ some k
    → some key ≡ some k
bound_not_open id q k key b e = ground arith
