-- ===== src/Store/Tables.antt =====
-- internal/store/store.go and queue.go: the rows of the schema, the database, and the errors.
-- A time is a count of nanoseconds since the year 0; a time column, RFC3339 text in UTC to the
-- second, is the count of whole seconds, whose order is the order of the texts.
use sund.Prelude.{
  ℕ, ◌+◌, ◌-◌, ◌/◌, Bool, Option, List, [], String, ◌<>◌, ◌==◌, Bytes, hex, ℤ, pos, negsuc,
}
use sund.Sql.{find_row}

abbrev pub second : ℕ
second = 1000000000

-- `t.Format(time.RFC3339)`
abbrev pub format : ℕ → ℕ
format t = t / second

-- `t.Add(d)`, for a duration `d` of nanoseconds.
abbrev pub add_time : ℕ → ℤ → ℕ
add_time t (pos d) = t + d
add_time t (negsuc d) = t - (d + 1)

abbrev pub public_key_size : ℕ
public_key_size = 32

abbrev pub admin_mode_flat : String
admin_mode_flat = "flat"

abbrev pub admin_mode_managed : String
admin_mode_managed = "managed"

abbrev pub role_admin : String
role_admin = "admin"

abbrev pub role_member : String
role_member = "member"

pub record Account : Type 0 where
  pub id : String
  pub created : ℕ
  pub quota : String
  pub status : String
  pub quota_bytes : ℤ
  pub admin_mode : String

pub record Invitation : Type 0 where
  pub token_hash : String
  pub id : String
  pub account_id : String
  pub created : ℕ
  pub expires : ℕ
  pub consumed : Bool
  pub revoked : Bool
  pub grants_role : String

pub record Device : Type 0 where
  pub id : String
  pub account_id : String
  pub public_key : Bytes
  pub push_endpoint : String
  pub capabilities : String
  pub created : ℕ
  pub last_seen : ℕ
  pub revoked : Bool
  pub quota_bytes : ℤ
  pub role : String

pub record Queue : Type 0 where
  pub recipient_id : String
  pub sender_id : String
  pub owner_device : String
  pub recipient_key : Bytes
  pub sender_key : Option Bytes
  pub created : ℕ
  pub retired : Bool
  pub quota_bytes : ℤ

pub record Message : Type 0 where
  pub seq : ℕ
  pub id : String
  pub queue_id : String
  pub payload : Bytes
  pub received_at : ℕ
  pub expires : ℕ

pub record Bundle : Type 0 where
  pub device_id : String
  pub blob : Bytes
  pub updated : ℕ

pub record Statement : Type 0 where
  pub account_id : String
  pub seq : ℕ
  pub blob : Bytes
  pub created : ℕ

-- `message_seq` is the largest `seq` that a message ever had (AUTOINCREMENT).
pub record Db : Type 0 where
  pub accounts : List Account
  pub invitations : List Invitation
  pub devices : List Device
  pub queues : List Queue
  pub messages : List Message
  pub message_seq : ℕ
  pub bundles : List Bundle
  pub statements : List Statement

abbrev pub empty_db : Db
empty_db = record {
  accounts = [];
  invitations = [];
  devices = [];
  queues = [];
  messages = [];
  message_seq = 0;
  bundles = [];
  statements = [];
}

-- `bad_argument` stands for the errors made by fmt.Errorf, `constraint` for a PRIMARY KEY, UNIQUE
-- or FOREIGN KEY that the database refuses to break, `no_rows` for a bare sql.ErrNoRows.
pub data Error : Type 0 where
  invalid_invitation device_not_found queue_not_found quota_exceeded : Error
  quota_not_changed not_admin last_admin role_change_not_applicable : Error
  statement_too_large bundle_not_found bad_argument constraint no_rows : Error

pub data Result {ℓ} (A : Type ℓ) : Type ℓ where
  ok : A → Result A
  err : Error → Result A

-- A method of the store: its result and the database after it. A failing method rolls back, so an
-- error carries no database.
abbrev pub Tx : Type 0 → Type 0
Tx A = Db → Result (A × Db)

-- `newID`: the prefix and nine random bytes in hexadecimal.
unfoldable pub new_id : String → Bytes → String
new_id prefix random = prefix <> hex random

-- The rows of a primary key.
abbrev pub account_at : Db → String → Option Account
account_at db id = find_row (λ a. a.id == id) db.accounts

abbrev pub device_at : Db → String → Option Device
device_at db id = find_row (λ d. d.id == id) db.devices

abbrev pub queue_at : Db → String → Option Queue
queue_at db id = find_row (λ q. q.recipient_id == id) db.queues
