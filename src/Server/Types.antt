-- ===== src/Server/Types.antt =====
-- What a handler reads and writes: the request, the response, the server's state, and what it
-- takes from Go's library. A handler ends early by a response; what it wrote before stays written.
use sund.Prelude.{ℕ, Bool, true, false, Option, none, some, List, String, Bytes, ℤ}
use sund.Store.Tables.{Db, Result, ok, err, Error}

-- The bodies of the requests, as encoding/json decodes them.
pub record RegisterRequest : Type 0 where
  pub token : String
  pub public_key : String
  pub push_endpoint : String
  pub capabilities : String

pub record SendRequest : Type 0 where
  pub payload : String
  pub ttl : ℤ
  pub priority : Bool

-- A decoder's answer: `ended` is io.EOF, a body with no value in it.
pub data Decoded (A : Type 0) : Type 0 where
  value : A → Decoded A
  ended : Decoded A
  malformed : Decoded A

-- What the handlers call in Go's library: ed25519.Verify, sha256.Sum256, base64.StdEncoding,
-- time.Parse with RFC3339, and json.Unmarshal into each type of request.
pub record Library : Type 0 where
  pub verify : Bytes → String → Bytes → Bool
  pub sha256 : Bytes → Bytes
  pub encode_string : Bytes → String
  pub decode_string : String → Option Bytes
  pub parse_time : String → Option ℕ
  pub json_register : Bytes → Option RegisterRequest
  pub json_create_queue : Bytes → Option String
  pub json_send : Bytes → Option SendRequest
  pub json_ack : Bytes → Option (List String)
  pub json_set_queue_quota : Bytes → Option ℤ
  pub json_push : Bytes → Option String
  pub json_bundle : Bytes → Option String
  pub json_statement : Bytes → Option String
  pub json_invitation : Bytes → Decoded String
  pub json_role : Bytes → Option String
  pub parse_int : String → Option ℤ

-- A request: its headers ("" when absent), the wildcard of its path, and its body. With it stand
-- the instants that the handler reads from the clock (the store's methods share one), and the random
-- bytes that it draws.
pub record Request : Type 0 where
  pub method : String
  pub path : String
  pub path_value : String
  pub device_id : String
  pub timestamp : String
  pub nonce : String
  pub signature : String
  pub sender_key : String
  pub body : Bytes
  pub time_checked : ℕ
  pub time_recorded : ℕ
  pub time_stored : ℕ
  pub random : Bytes
  pub random' : Bytes
  pub random_token : String

pub data Priority : Type 0 where
  normal high : Priority

pub record MessageView : Type 0 where
  pub id : String
  pub payload : String
  pub received_at : ℕ
  pub expires : ℕ

pub record DeviceView : Type 0 where
  pub id : String
  pub role : String
  pub public_key : String
  pub push_endpoint : String
  pub capabilities : String
  pub created : ℕ
  pub last_seen : ℕ
  pub revoked : Bool

pub record InvitationView : Type 0 where
  pub id : String
  pub created : ℕ
  pub expires : ℕ

pub record StatementView : Type 0 where
  pub seq : ℕ
  pub statement : String
  pub created : ℕ

-- The health route's version is the build's, and is left out.
pub data Body : Type 0 where
  error : String → Body
  registered : String → String → Body
  created_queue : String → String → Body
  message_id : String → Body
  messages : List MessageView → Body
  deleted : ℕ → Body
  status_ok : Body
  revocation_done : Body
  retirement_done : Body
  healthy : Body
  queue_quota : ℤ → Body
  devices : List DeviceView → Body
  quota : ℤ → ℕ → ℤ → Body
  invitation : String → String → ℕ → Body
  invitations : List InvitationView → Body
  role : String → Body
  statement : StatementView → Body
  statements : List StatementView → Body
  bundle : String → ℕ → Body

pub record Response : Type 0 where
  pub status : ℕ
  pub body : Body

-- `nonces` is the map of the nonce cache; `pings` are the wake-ups handed to the pinger, oldest
-- first.
pub record Server : Type 0 where
  pub db : Db
  pub nonces : List (String × ℕ)
  pub clock_skew : ℕ
  pub pings : List (String × Priority)

pub data Outcome {ℓ} (A : Type ℓ) : Type ℓ where
  next : A → Outcome A
  reply : Response → Outcome A

abbrev pub Handler : Type 0 → Type 0
Handler A = Server → Outcome A × Server

infixl 5 ◌>>=◌ ◌>>◌
abbrev pub ◌>>=◌ : {A B : Type 0} → Handler A → (A → Handler B) → Handler B
◌>>=◌ m f s = let (o, s') = m s in elim o [ next a ↦ f a s' | reply r ↦ (reply r, s') ]

abbrev pub ◌>>◌ : {B : Type 0} → Handler (Unit {0}) → Handler B → Handler B
m >> k = m >>= λ _. k

abbrev pub respond : {A : Type 0} → ℕ → Body → Handler A
respond status body s = (reply (record { status = status; body = body }), s)

-- writeError
abbrev pub write_error : {A : Type 0} → ℕ → String → Handler A
write_error status message = respond status (error message)

abbrev pub give : {A : Type 0} → A → Handler A
give a s = (next a, s)

abbrev pub gets : {A : Type 0} → (Server → A) → Handler A
gets f s = (next (f s), s)

abbrev pub modify_db : (Db → Db) → Handler (Unit {0})
modify_db f s = (next tt, record s { db = f s.db })

-- Ends by the response unless the test holds.
abbrev pub require : Bool → ℕ → String → Handler (Unit {0})
require true status message s = (next tt, s)
require false status message s = (reply (record { status = status; body = error message }), s)

abbrev pub or_reply : {A : Type 0} → Option A → ℕ → String → Handler A
or_reply (some a) status message s = (next a, s)
or_reply none status message s = (reply (record { status = status; body = error message }), s)

-- A method of the store; `on_error` writes the response for its error.
abbrev pub run_store : {A : Type 0} → (Db → Result (A × Db)) → (Error → ℕ × String) → Handler A
run_store m on_error s = elim (m s.db) [
  | ok (a, db') ↦ (next a, record s { db = db' })
  | err e ↦ (reply (record { status = (on_error e).0; body = error (on_error e).1 }), s)
]

-- The same for a read, which leaves the database alone.
abbrev pub read_store : {A : Type 0} → (Db → Result A) → (Error → ℕ × String) → Handler A
read_store m on_error s = elim (m s.db) [
  | ok a ↦ (next a, s)
  | err e ↦ (reply (record { status = (on_error e).0; body = error (on_error e).1 }), s)
]

abbrev pub internal_error : Error → ℕ × String
internal_error e = (500, "internal error")
