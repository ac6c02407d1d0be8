-- ===== src/Client/Conn.antt =====
-- client/conn.go, client/errors.go: one request of a connection, and its signature.
use sund.Prelude.{
  ℕ, not, ◌||◌, Option, none, some, List, [], ◌++◌, String, ◌<>◌, Bytes, hex, ltb, if◌then◌else◌,
}
use sund.Sigauth.{signing_string}
use sund.Server.Auth.{take}
use sund.Client.Address.{Address, UrlLibrary, Trust, base_url, http_client}
use sund.Client.Types.{
  Header, set_header, HttpRequest, TransportError, certificate_verification, identity_mismatch,
  other_transport, answered, not_sent, ClientError, api_error, server_identity, not_reached,
  not_encoded, bad_request, no_random, not_read, not_decoded, Answer, ok, err, Value, ClientLibrary,
  Draw, Network, Call, ◌>>=◌, give,
}

abbrev pub max_response_bytes : ℕ
max_response_bytes = 1048576

-- `http` is the client that carries the trust mode.
pub record Conn (W : Type 0) : Type 0 where
  pub base_url : String
  pub http : Network W

-- StatusCode
unfoldable pub status_code : ClientError → ℕ
status_code (api_error status message) = status
status_code _ = 0

-- wrapTransportErr
unfoldable pub wrap_transport_err : TransportError → ClientError
wrap_transport_err certificate_verification = server_identity
wrap_transport_err identity_mismatch = server_identity
wrap_transport_err other_transport = not_reached

-- The headers that a body brings.
unfoldable pub content_type : Option (List (String × Value)) → Header
content_type none = []
content_type (some fields) = set_header "Content-Type" "application/json" []

module _ {Key : Type 0} (lib : ClientLibrary Key) where
  -- The signing of `sign`: the three headers, over the path and the body.
  unfoldable pub sign : Draw → Key → String → String → Bytes → Header → Option Header
  sign draw key method path body h = elim draw.nonce [
    | none ↦ none
    | some nonce ↦
        let ts = lib.format_time draw.now in
        let sig = lib.sign key (signing_string lib.sha256 method path ts (hex nonce) body) in
        some (
          set_header "Sund-Signature" (lib.encode_string sig)
            (set_header "Sund-Nonce" (hex nonce) (set_header "Sund-Timestamp" ts h)))
  ]

  -- The body of a request.
  unfoldable pub encode : Option (List (String × Value)) → Option Bytes
  encode none = some []
  encode (some fields) = lib.json_marshal fields

  -- The headers of a request: a key signs it.
  unfoldable pub sign_if : Draw → Option Key → String → String → Bytes → Header → Option Header
  unfolding sign
  sign_if draw none method path body h = some h
  sign_if draw (some key) method path body h = sign draw key method path body h

  -- The request that `do` sends, or the error that it ends with before.
  unfoldable pub build :
      Draw
      → String
      → Option Key
      → String
      → String
      → Header
      → Option (List (String × Value))
      → Answer HttpRequest
  unfolding encode content_type sign_if
  build draw base_url key method path extra input = elim (encode input) [
    | none ↦ err not_encoded
    | some body ↦
        if not (lib.is_request method (base_url <> path))
        then err bad_request
        else elim (sign_if draw key method path body (content_type input ++ extra)) [
          | none ↦ err no_random
          | some headers ↦
              ok
                (record { method = method; url = base_url <> path; headers = headers; body = body })
        ]
  ]

  -- What `do` makes of a response that was read.
  unfoldable pub read_response : {A : Type 0} → (Bytes → Option A) → ℕ → Bytes → Answer A
  read_response decode status raw =
      if ltb status 200 || ltb 299 status
      then elim (lib.json_error raw) [
        | none ↦ err (api_error status "")
        | some message ↦ err (api_error status message)
      ]
      else elim (decode raw) [ none ↦ err not_decoded | some out ↦ ok out ]

-- Connect, where `dial` is what a client of that trust sends by.
unfoldable pub connect : {W : Type 0} → UrlLibrary → (Trust → Network W) → Address → Conn W
unfolding base_url http_client
connect lib dial a = record { base_url = base_url lib a; http = dial (http_client a) }

module _ {Key W : Type 0} (lib : ClientLibrary Key) where
  -- NewConn
  unfoldable pub new_conn : String → Network W → Conn W
  new_conn base_url http = record { base_url = lib.trim_right base_url "/"; http = http }

  -- Conn.do
  unfoldable pub do_request :
      {A : Type 0}
      → Conn W
      → Draw
      → Option Key
      → String
      → String
      → Header
      → Option (List (String × Value))
      → (Bytes → Option A)
      → Call W A
  unfolding build read_response
  do_request conn draw key method path extra input decode w =
      elim (build lib draw conn.base_url key method path extra input) [
        | err e ↦ (err e, w)
        | ok request ↦
            let (sent, w') = conn.http request w in
            elim sent [
              | not_sent e ↦ (err (wrap_transport_err e), w')
              | answered resp ↦ elim resp.body [
                | none ↦ (err not_read, w')
                | some raw ↦
                    (read_response lib decode resp.status (take max_response_bytes raw), w')
              ]
            ]
      ]

  -- Conn.Health: the version.
  unfoldable pub health : Conn W → Draw → Call W String
  unfolding do_request
  health conn draw = do
    out ← do_request conn draw none "GET" "/health" [] none lib.json_health
    give out.1

-- A response whose body is not decoded.
abbrev pub no_answer : Bytes → Option (Unit {0})
no_answer raw = some tt
