-- ===== src/Client/Signed.antt =====
-- client/conn.go and internal/server/auth.go: the requests that the client signs, as the server
-- reads them.
use text.Mathlib.TextLemmas.{cons≢nil}
use sund.Prelude.{
  ℕ, ◌≡◌, ◌≢◌, ◌≤◌, ◌+◌, ◌*◌, refl, ap, true, false, Option, none, some, List, [], ◌∷◌, String,
  eq_iff, Bytes, hex, length, arith, zero, suc,
}
use sund.Sigauth.{signing_string}
use sund.Store.Tables.{Device, ok, format, second}
use sund.Store.Devices.{get_device}
use sund.Server.Types.{Library, Request, Server, next}
use sund.Server.Nonces.{check_and_add}
use sund.Server.Auth.{
  take, max_body_bytes, is_skewed, is_signed, extract_signature, nonce_key, verify_and_record,
  require_signature, SigEnvelope,
}
use sund.Client.Types.{set_header, get_header, HttpRequest, ClientLibrary, Draw, Value}
use sund.Client.Types.{ok as built}
use sund.Client.Conn.{sign, content_type, sign_if, build}

-- The request as it reaches a handler, which is given `path` and the rest by the router, the clock
-- and crypto/rand.
unfoldable pub arrived : HttpRequest → String → Request → Request
unfolding get_header
arrived h path q = record q {
  method = h.method;
  path = path;
  device_id = get_header "Sund-Device-Id" h.headers;
  timestamp = get_header "Sund-Timestamp" h.headers;
  nonce = get_header "Sund-Nonce" h.headers;
  signature = get_header "Sund-Signature" h.headers;
  sender_key = get_header "Sund-Sender-Key" h.headers;
  body = h.body;
}

-- The client's library and the server's: a signature verifies under the public key, base64 is read
-- as it was written, RFC3339 is read as the beginning of the second that was written, and both take
-- the same hash.
pub record IsCompatible {Key : Type 0} (c : ClientLibrary Key) (lib : Library) : Type 0 where
  pub verifies : (key : Key) (m : String) → lib.verify (c.public key) m (c.sign key m) ≡ true
  pub decodes : (b : Bytes) → lib.decode_string (c.encode_string b) ≡ some b
  pub signature_text : (key : Key) (m : String) → c.encode_string (c.sign key m) ≢ ""
  pub parses : (t : ℕ) → lib.parse_time (c.format_time t) ≡ some (format t * second)
  pub time_text : (t : ℕ) → c.format_time t ≢ ""
  pub hashes : (b : Bytes) → lib.sha256 b ≡ c.sha256 b

take_all : (n : ℕ) (b : Bytes) → length b ≤ n → take n b ≡ b
unfolding take
take_all zero [] h = refl
take_all zero (x ∷ b) h = absurd (omega arith)
take_all (suc n) [] h = refl
take_all (suc n) (x ∷ b) h = ap (λ r. x ∷ r) (take_all n b (omega arith))

module _ {Key : Type 0} (c : ClientLibrary Key) (lib : Library) (k : IsCompatible c lib) where
  device_headers :
      (draw : Draw) (key : Key) (base id method path : String)
      (input : Option (List (String × Value))) (n : Bytes) (request : HttpRequest) (q : Request)
      → draw.nonce ≡ some n
      → build c draw base (some key) method path (set_header "Sund-Device-Id" id []) input
        ≡ built request
      → let r = arrived request path q in
        (r.device_id ≡ id)
        × (r.timestamp ≡ c.format_time draw.now)
        × (r.nonce ≡ hex n)
        × (r.signature
            ≡ c.encode_string (
                c.sign key (
                  signing_string c.sha256 r.method r.path (c.format_time draw.now) (hex n) r.body)))
  unfolding build sign_if sign content_type set_header arrived
  device_headers draw key base id method path none n request q e b = ground arith
  device_headers draw key base id method path (some fields) n request q e b = ground arith

  -- The envelope of a request that carries a client's signature.
  module _ (key : Key) (t : ℕ) (n : Bytes) (r : Request) where
    abbrev message : String
    message = signing_string c.sha256 r.method r.path (c.format_time t) (hex n) r.body

    abbrev envelope : SigEnvelope
    envelope = record {
      timestamp = c.format_time t;
      nonce = hex n;
      signature = c.sign key message;
      body = r.body;
      signed_at = format t * second;
    }

    extract-signed :
        (skew : ℕ)
        → r.timestamp ≡ c.format_time t
        → r.nonce ≡ hex n
        → r.signature ≡ c.encode_string (c.sign key message)
        → hex n ≢ ""
        → length r.body ≤ max_body_bytes
        → is_skewed skew r.time_checked (format t * second) ≡ false
        → extract_signature lib r skew ≡ some envelope
    unfolding extract_signature
    extract-signed skew e f g h l w = ground (
      arith,
      k.parses t,
      k.decodes (c.sign key message),
      k.signature_text key message,
      k.time_text t,
      take_all max_body_bytes r.body l,
      eq_iff r.timestamp "",
      eq_iff r.nonce "",
      eq_iff r.signature "",
    )

    is_signed-signed : is_signed lib r envelope (c.public key) ≡ true
    unfolding is_signed signing_string
    is_signed-signed = rw (is_signed, k.hashes r.body) (k.verifies key message)

  hex_text : (n : Bytes) → n ≢ [] → hex n ≢ ""
  unfolding hex
  hex_text [] h e = h refl
  hex_text (b ∷ n) h e = cons≢nil e

  -- A request that a device of the client makes is let through by requireSignature, as the request
  -- of that device, when it arrives under the path that it was signed for, the device is registered
  -- with the client's public key and is not revoked, its body is at most 1 MiB, the server's clock
  -- differs by no more than the skew from the beginning of the client's second, and the nonce is
  -- new to the server. The id and the nonce are not empty, and the libraries of the two sides are
  -- compatible.
  pub device-authenticated :
      (draw : Draw) (key : Key) (base id method path : String)
      (input : Option (List (String × Value))) (n : Bytes) (request : HttpRequest) (q : Request)
      (s : Server) (dev : Device)
      → draw.nonce ≡ some n
      → n ≢ []
      → id ≢ ""
      → build c draw base (some key) method path (set_header "Sund-Device-Id" id []) input
        ≡ built request
      → length request.body ≤ max_body_bytes
      → get_device s.db id ≡ ok dev
      → dev.revoked ≡ false
      → dev.public_key ≡ c.public key
      → is_skewed s.clock_skew q.time_checked (format draw.now * second) ≡ false
      → (check_and_add
          (nonce_key lib id (hex n))
          (format draw.now * second + s.clock_skew)
          q.time_recorded
          s.nonces).0
        ≡ true
      → (require_signature lib (arrived request path q) s).0 ≡ next dev
  unfolding require_signature verify_and_record arrived
  device-authenticated draw key base id method path input n request q s dev e full name b l g live
        same skew fresh =
      let r = arrived request path q in
      let (h₀, h₁, h₂, h₃) = device_headers draw key base id method path input n request q e b in
      let found = extract-signed key draw.now n r s.clock_skew h₁ h₂ h₃ (hex_text n full) l skew in
      let signed = is_signed-signed key draw.now n r in
      ground (arith, h₀, found, signed, eq_iff id "", g, live, same, fresh)
