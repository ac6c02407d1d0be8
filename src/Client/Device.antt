-- ===== src/Client/Device.antt =====
-- client/device.go: an enrolled device.
use sund.Prelude.{
  ℕ, Bool, Option, none, some, List, [], ◌∷◌, map, String, ◌<>◌, ◌==◌, Bytes, ℤ, if◌then◌else◌,
}
use sund.Client.Types.{
  set_header, Value, text, DeviceOut, StatementOut, ClientLibrary, Draw, Call, ◌>>=◌, give, or_fail,
  not_decoded,
}
use sund.Client.Conn.{Conn, do_request, no_answer}

-- `account_id` is "" for a device that is resumed.
pub record Device (Key W : Type 0) : Type 0 where
  pub conn : Conn W
  pub id : String
  pub account_id : String
  pub key : Key

-- A time that does not parse is the zero time, here `none`.
pub record DeviceInfo : Type 0 where
  pub id : String
  pub public_key : Bytes
  pub role : String
  pub push_endpoint : String
  pub capabilities : String
  pub created : Option ℕ
  pub last_seen : Option ℕ
  pub revoked : Bool

pub record Invitation : Type 0 where
  pub id : String
  pub token : String
  pub expires : Option ℕ

pub record QueueIds : Type 0 where
  pub recipient_id : String
  pub sender_id : String

pub record Quota : Type 0 where
  pub quota_bytes : ℤ
  pub stored_bytes : ℤ
  pub account_quota_bytes : ℤ

pub record Statement : Type 0 where
  pub seq : ℤ
  pub blob : Bytes
  pub created : Option ℕ

module _ {Key : Type 0} (lib : ClientLibrary Key) where
  -- One row of ListDevices; an error of the decoder is dropped.
  unfoldable pub device_info : DeviceOut → DeviceInfo
  device_info v = record {
    id = v.id;
    public_key = lib.decoded_part v.public_key;
    role = v.role;
    push_endpoint = v.push_endpoint;
    capabilities = v.capabilities;
    created = lib.parse_time v.created;
    last_seen = lib.parse_time v.last_seen;
    revoked = v.revoked;
  }

  -- One row of ListInvitations.
  unfoldable pub listed_invitation : String × String → Invitation
  listed_invitation v = record { id = v.0; token = ""; expires = lib.parse_time v.1 }

  -- The loop of Statements.
  unfoldable pub decode_statements : List StatementOut → Option (List Statement)
  decode_statements [] = some []
  decode_statements (v ∷ vs) = elim (lib.decode_string v.statement) [
    | none ↦ none
    | some blob ↦ elim (decode_statements vs) [
      | none ↦ none
      | some rest ↦
          some (record { seq = v.seq; blob = blob; created = lib.parse_time v.created } ∷ rest)
    ]
  ]

  -- The body of CreateInvitationAs.
  unfoldable pub grant_fields : String → Option (List (String × Value))
  grant_fields role = if role == "" then none else some (("grants_role", text role) ∷ [])

module _ {Key W : Type 0} (lib : ClientLibrary Key) where
  -- Register
  unfoldable pub register : Conn W → Draw → String → Key → String → String → Call W (Device Key W)
  unfolding do_request
  register conn draw token key push_endpoint capabilities = do
    out ←
        do_request lib conn draw none "POST" "/v1/devices/register" []
          (some (
            ("token", text token)
            ∷ ("public_key", text (lib.encode_string (lib.public key)))
            ∷ ("push_endpoint", text push_endpoint)
            ∷ ("capabilities", text capabilities)
            ∷ []))
          lib.json_registered
    give (record { conn = conn; id = out.0; account_id = out.1; key = key })

  -- NewDevice
  unfoldable pub new_device : Conn W → String → Key → Device Key W
  new_device conn device_id key = record { conn = conn; id = device_id; account_id = ""; key = key }

  -- Device.do
  unfoldable pub device_do :
      {A : Type 0}
      → Device Key W
      → Draw
      → String
      → String
      → Option (List (String × Value))
      → (Bytes → Option A)
      → Call W A
  unfolding do_request
  device_do d draw method path input decode =
      do_request lib d.conn draw (some d.key) method path (set_header "Sund-Device-Id" d.id [])
        input decode

  -- Device.ListDevices
  unfoldable pub list_devices : Device Key W → Draw → Call W (List DeviceInfo)
  unfolding device_do device_info
  list_devices d draw = do
    out ← device_do d draw "GET" "/v1/devices" none lib.json_devices
    give (map (device_info lib) out)

  -- Device.RevokeDevice
  unfoldable pub revoke_device : Device Key W → Draw → String → Call W (Unit {0})
  unfolding device_do
  revoke_device d draw device_id =
      device_do d draw "POST" ("/v1/devices/" <> (device_id <> "/revoke")) none no_answer

  -- Device.CreateInvitationAs
  unfoldable pub create_invitation_as : Device Key W → Draw → String → Call W Invitation
  unfolding device_do grant_fields
  create_invitation_as d draw role = do
    out ← device_do d draw "POST" "/v1/invitations" (grant_fields lib role) lib.json_invitation
    give (record { id = out.1; token = out.0; expires = lib.parse_time out.2 })

  -- Device.CreateInvitation
  unfoldable pub create_invitation : Device Key W → Draw → Call W Invitation
  unfolding create_invitation_as
  create_invitation d draw = create_invitation_as d draw ""

  -- Device.SetRole
  unfoldable pub set_role : Device Key W → Draw → String → String → Call W (Unit {0})
  unfolding device_do
  set_role d draw device_id role =
      device_do d draw "POST" ("/v1/devices/" <> (device_id <> "/role"))
        (some (("role", text role) ∷ [])) no_answer

  -- Device.Quota
  unfoldable pub quota : Device Key W → Draw → Call W Quota
  unfolding device_do
  quota d draw = do
    out ← device_do d draw "GET" "/v1/me/quota" none lib.json_quota
    give (record { quota_bytes = out.0; stored_bytes = out.1; account_quota_bytes = out.2 })

  -- Device.ListInvitations
  unfoldable pub list_invitations : Device Key W → Draw → Call W (List Invitation)
  unfolding device_do listed_invitation
  list_invitations d draw = do
    out ← device_do d draw "GET" "/v1/invitations" none lib.json_invitations
    give (map (listed_invitation lib) out)

  -- Device.RevokeInvitation
  unfoldable pub revoke_invitation : Device Key W → Draw → String → Call W (Unit {0})
  unfolding device_do
  revoke_invitation d draw invitation_id =
      device_do d draw "POST" ("/v1/invitations/" <> (invitation_id <> "/revoke")) none no_answer

  -- Device.SetPushEndpoint
  unfoldable pub set_push_endpoint : Device Key W → Draw → String → Call W (Unit {0})
  unfolding device_do
  set_push_endpoint d draw endpoint =
      device_do d draw "PUT" "/v1/me/push" (some (("push_endpoint", text endpoint) ∷ [])) no_answer

  -- Device.PublishBundle
  unfoldable pub publish_bundle : Device Key W → Draw → Bytes → Call W (Unit {0})
  unfolding device_do
  publish_bundle d draw blob =
      device_do d draw "PUT" "/v1/me/bundle" (some (("bundle", text (lib.encode_string blob)) ∷ []))
        no_answer

  -- Device.GetBundle
  unfoldable pub get_bundle : Device Key W → Draw → String → Call W Bytes
  unfolding device_do
  get_bundle d draw device_id = do
    out ← device_do d draw "GET" ("/v1/devices/" <> (device_id <> "/bundle")) none lib.json_bundle
    or_fail (lib.decode_string out) not_decoded

  -- Device.CreateQueue
  unfoldable pub create_queue : Device Key W → Draw → Bytes → Call W QueueIds
  unfolding device_do
  create_queue d draw recipient_key = do
    out ←
        device_do d draw "POST" "/v1/queues"
          (some (("recipient_key", text (lib.encode_string recipient_key)) ∷ [])) lib.json_queue
    give (record { recipient_id = out.0; sender_id = out.1 })

  -- Device.AppendStatement
  unfoldable pub append_statement : Device Key W → Draw → Bytes → Call W Statement
  unfolding device_do
  append_statement d draw blob = do
    out ←
        device_do d draw "POST" "/v1/statements"
          (some (("statement", text (lib.encode_string blob)) ∷ [])) lib.json_statement
    give (record { seq = out.seq; blob = blob; created = lib.parse_time out.created })

  -- Device.Statements
  unfoldable pub statements : Device Key W → Draw → ℤ → Call W (List Statement)
  unfolding device_do decode_statements
  statements d draw since = do
    out ←
        device_do d draw "GET" ("/v1/statements/" <> lib.format_int since) none lib.json_statements
    or_fail (decode_statements lib out) not_decoded
