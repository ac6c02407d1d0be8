-- ===== src/Tests/World.antt =====
-- A small world: a managed account with two devices, the first of which owns a queue.
use sund.Prelude.{
  ◌≡◌, ◌≢◌, ◌==◌, arith, eq_iff, ℕ, ◌*◌, false, none, some, List, [], ◌∷◌, String, Bytes, codes,
  bytes_eq, pos,
}
use sund.Store.Tables.{Db, Queue, Device, role_admin, empty_db, second, admin_mode_managed}
use sund.Store.Commands.{Command, run}
use sund.Store.Keyed.{IsKeyed, run-IsKeyed, empty_db-IsKeyed}
use sund.Store.Order.{IsOrdered, run-IsOrdered, empty_db-IsOrdered}
use sund.Server.Types.{Library, Request, Server, malformed}

abbrev pub key_text : String
key_text = "0123456789abcdef0123456789abcdef"

abbrev pub other_text : String
other_text = "fedcba9876543210fedcba9876543210"

-- The signature of a text is the key itself, the hash is the identity, and every body decodes to
-- one value.
abbrev pub library : Library
library = record {
  verify = λ key text signature. bytes_eq key signature;
  sha256 = λ b. b;
  encode_string = λ b. key_text;
  decode_string = λ s. some (codes s);
  parse_time = λ s. some (100 * second);
  json_register = λ b. none;
  json_create_queue = λ b. some key_text;
  json_send = λ b. some (record { payload = "hello"; ttl = pos 60; priority = false });
  json_ack = λ b. some ("msg_05" ∷ []);
  json_set_queue_quota = λ b. some (pos 8);
  json_push = λ b. some "https://push";
  json_bundle = λ b. some "bundle";
  json_statement = λ b. some "statement";
  json_invitation = λ b. malformed;
  json_role = λ b. some "member";
  parse_int = λ s. some (pos 0);
}

abbrev pub hash : Bytes → Bytes
hash = library.sha256

abbrev pub minute : ℕ
minute = 60 * second

abbrev pub setup : List Command
setup =
    Command.creates_account "free" (pos 0) admin_mode_managed second (1 ∷ [])
    ∷ Command.invites "acc_01" (pos minute) "" "token1" (1 ∷ []) second
    ∷ Command.registers "token1" (codes key_text) "https://one" "" (1 ∷ []) second
    ∷ Command.invites "acc_01" (pos minute) "admin" "token2" (2 ∷ []) second
    ∷ Command.registers "token2" (codes other_text) "https://two" "" (2 ∷ []) second
    ∷ Command.creates_queue "dev_01" (codes key_text) (3 ∷ []) (4 ∷ []) second
    ∷ []

abbrev pub world : Db
world = run hash setup empty_db

-- Texts that a comparison tells apart are not equal.
pub apart : (a b : String) → (a == b) ≡ false → a ≢ b
apart a b h e = ground (arith, eq_iff a b)

pub world-IsKeyed : IsKeyed world
world-IsKeyed = run-IsKeyed hash setup empty_db empty_db-IsKeyed

pub world-IsOrdered : IsOrdered world
world-IsOrdered = run-IsOrdered hash setup empty_db empty_db-IsOrdered

abbrev pub first_device : Device
first_device = record {
  id = "dev_01";
  account_id = "acc_01";
  public_key = codes key_text;
  push_endpoint = "https://one";
  capabilities = "";
  created = 1;
  last_seen = 1;
  revoked = false;
  quota_bytes = pos 0;
  role = role_admin;
}

abbrev pub queue : Queue
queue = record {
  recipient_id = "rcp_03";
  sender_id = "snd_04";
  owner_device = "dev_01";
  recipient_key = codes key_text;
  sender_key = none;
  created = 1;
  retired = false;
  quota_bytes = pos 0;
}

abbrev pub server : Server
server = record { db = world; nonces = []; clock_skew = 300 * second; pings = [] }

abbrev pub asking : Request
asking = record {
  method = "POST";
  path = "/v1/devices/dev_02/revoke";
  path_value = "dev_02";
  device_id = "dev_01";
  timestamp = "t";
  nonce = "n1";
  signature = key_text;
  sender_key = "";
  body = [];
  time_checked = 100 * second;
  time_recorded = 100 * second;
  time_stored = 100 * second;
  random = 5 ∷ [];
  random' = 6 ∷ [];
  random_token = "token3";
}
