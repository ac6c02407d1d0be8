-- ===== src/Client/Types.antt =====
-- client: requests, answers and errors of the client, and what it takes from Go's library and
-- from the network.
use sund.Prelude.{ℕ, Bool, Option, List, String, ◌==◌, Bytes, ℤ, [], ◌∷◌, if◌then◌else◌, none, some}

-- http.Header, for names that it holds once each.
abbrev pub Header : Type 0
Header = List (String × String)

-- Header.Set
unfoldable pub set_header : String → String → Header → Header
set_header name value [] = (name, value) ∷ []
set_header name value (h ∷ hs) =
    if h.0 == name then (name, value) ∷ hs else h ∷ set_header name value hs

-- Header.Get: "" when the name is absent.
unfoldable pub get_header : String → Header → String
get_header name [] = ""
get_header name (h ∷ hs) = if h.0 == name then h.1 else get_header name hs

pub record HttpRequest : Type 0 where
  pub method : String
  pub url : String
  pub headers : Header
  pub body : Bytes

-- `body` is absent when it cannot be read to its end, or to the limit.
pub record HttpResponse : Type 0 where
  pub status : ℕ
  pub body : Option Bytes

-- An error of http.Client.Do, as errors.As and errors.Is find it.
pub data TransportError : Type 0 where
  certificate_verification identity_mismatch other_transport : TransportError

pub data Sent : Type 0 where
  answered : HttpResponse → Sent
  not_sent : TransportError → Sent

-- The errors of the methods. `api_error` is APIError, `server_identity` wraps ErrServerIdentity.
pub data ClientError : Type 0 where
  api_error : ℕ → String → ClientError
  server_identity not_reached not_encoded bad_request no_random not_read not_decoded : ClientError

pub data Answer (A : Type 0) : Type 0 where
  ok : A → Answer A
  err : ClientError → Answer A

-- A value of a request's JSON object.
pub data Value : Type 0 where
  text : String → Value
  texts : List String → Value
  number : ℤ → Value
  truth : Bool → Value

-- The answers, as encoding/json decodes them; what Go names twice has one name here.
pub record DeviceOut : Type 0 where
  pub id : String
  pub public_key : String
  pub role : String
  pub push_endpoint : String
  pub capabilities : String
  pub created : String
  pub last_seen : String
  pub revoked : Bool

pub record MessageOut : Type 0 where
  pub id : String
  pub payload : String
  pub received_at : String
  pub expires : String

pub record StatementOut : Type 0 where
  pub seq : ℤ
  pub statement : String
  pub created : String

-- What the client calls in Go's library: ed25519, crypto/sha256, encoding/base64, time,
-- http.NewRequest's check of a method and a URL, json.Marshal of an object, and json.Unmarshal into
-- each type of answer. `decoded_part` is what DecodeString decodes before an error. Of an answer with several fields they are listed in the order of the source.
pub record ClientLibrary (Key : Type 0) : Type 0 where
  pub public : Key → Bytes
  pub sign : Key → String → Bytes
  pub sha256 : Bytes → Bytes
  pub encode_string : Bytes → String
  pub decode_string : String → Option Bytes
  pub decoded_part : String → Bytes
  pub format_time : ℕ → String
  pub parse_time : String → Option ℕ
  pub format_int : ℤ → String
  pub trim_right : String → String → String
  pub is_request : String → String → Bool
  pub json_marshal : List (String × Value) → Option Bytes
  pub json_error : Bytes → Option String
  pub json_health : Bytes → Option (String × String)
  pub json_registered : Bytes → Option (String × String)
  pub json_devices : Bytes → Option (List DeviceOut)
  pub json_invitation : Bytes → Option (String × String × String)
  pub json_quota : Bytes → Option (ℤ × ℤ × ℤ)
  pub json_invitations : Bytes → Option (List (String × String))
  pub json_bundle : Bytes → Option String
  pub json_queue : Bytes → Option (String × String)
  pub json_statement : Bytes → Option StatementOut
  pub json_statements : Bytes → Option (List StatementOut)
  pub json_messages : Bytes → Option (List MessageOut)
  pub json_deleted : Bytes → Option ℤ
  pub json_message_id : Bytes → Option String

-- What one request reads: 16 random bytes, if there are any, and the clock.
pub record Draw : Type 0 where
  pub nonce : Option Bytes
  pub now : ℕ

-- The other side of http.Client.Do, with its state.
abbrev pub Network : Type 0 → Type 0
Network W = HttpRequest → W → Sent × W

-- A call: its answer, and the state that the network is in afterwards.
abbrev pub Call : Type 0 → Type 0 → Type 0
Call W A = W → Answer A × W

infixl 5 ◌>>=◌
abbrev pub ◌>>=◌ : {W A B : Type 0} → Call W A → (A → Call W B) → Call W B
◌>>=◌ m f w = let (a, w') = m w in elim a [ ok v ↦ f v w' | err e ↦ (err e, w') ]

abbrev pub give : {W A : Type 0} → A → Call W A
give a w = (ok a, w)

abbrev pub or_fail : {W A : Type 0} → Option A → ClientError → Call W A
or_fail (some a) e w = (ok a, w)
or_fail none e w = (err e, w)
