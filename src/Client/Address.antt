-- ===== src/Client/Address.antt =====
-- client/address.go: server addresses.
pub mod RoundTrip
use Prim.Native.Char.{code}
use sund.Prelude.{
  ℕ, zero, suc, Bool, true, false, not, ◌&&◌, ◌||◌, Option, none, some, String, ◌<>◌, ◌==◌, ℤ, pos,
  negsuc, is_pos, lt_ℕ, leb, nat_eq, if◌then◌else◌,
}

-- The mode of an address that a caller makes can be neither of the two.
pub data Mode : Type 0 where
  pinned web_pki other_mode : Mode

-- Mode.String
unfoldable pub mode_string : Mode → String
mode_string pinned = "pinned"
mode_string web_pki = "webpki"
mode_string other_mode = "unknown"

pub record Address : Type 0 where
  pub mode : Mode
  pub host : String
  pub port : ℤ
  pub fingerprint : String

-- The errors of ParseAddress, in the order of the source.
pub data AddressError : Type 0 where
  malformed only_origin missing_host port_required bad_port bad_fragment : AddressError
  no_fragment dns_name_required bad_web_port unknown_scheme : AddressError

pub data Parsed : Type 0 where
  parsed : Address → Parsed
  rejected : AddressError → Parsed

-- What is read of a url.URL, with the answers of Hostname and Port.
pub record Url : Type 0 where
  pub scheme : String
  pub has_user : Bool
  pub path : String
  pub raw_query : String
  pub opaque : String
  pub hostname : String
  pub port : String
  pub fragment : String

-- net/url, net, strconv and strings.
pub record UrlLibrary : Type 0 where
  pub parse : String → Option Url
  pub is_ip : String → Bool
  pub atoi : String → Option ℤ
  pub itoa : ℤ → String
  pub join_host_port : String → String → String
  pub contains : String → String → Bool

-- The number of characters.
unfoldable pub chars : String → ℕ
chars String.[] = 0
chars (String.◌∷◌ c s) = suc (chars s)

-- The loop of validFingerprint.
unfoldable pub all_hex : String → Bool
all_hex String.[] = true
all_hex (String.◌∷◌ c s) =
    let rest = all_hex s in
    if leb 48 (code c) && leb (code c) 57 || leb 97 (code c) && leb (code c) 102
    then rest
    else false

-- validFingerprint: a text with 64 bytes that passes the loop has 64 characters.
unfoldable pub valid_fingerprint : String → Bool
unfolding chars all_hex
valid_fingerprint fp = nat_eq (chars fp) 64 && all_hex fp

abbrev pub max_port : ℕ
max_port = 65535

-- err != nil || port < 1 || port > 65535
unfoldable pub port_of : Option ℤ → Option ℤ
port_of none = none
port_of (some port) = if not (is_pos port) || lt_ℕ max_port port then none else some port

-- The integer is the natural number.
abbrev pub is_int : ℤ → ℕ → Bool
is_int (pos m) n = nat_eq m n
is_int (negsuc m) n = false

module _ (lib : UrlLibrary) where
  -- The case of sund.
  unfoldable pub parse_pinned : Url → Parsed
  unfolding valid_fingerprint port_of
  parse_pinned u =
      if u.port == "" then rejected port_required else elim (port_of (lib.atoi u.port)) [
        | none ↦ rejected bad_port
        | some port ↦
            if not (valid_fingerprint u.fragment)
            then rejected bad_fragment
            else parsed
                (record { mode = pinned; host = u.hostname; port = port; fingerprint = u.fragment })
      ]

  -- The port of the case of sund+webpki.
  unfoldable pub web_port : Url → Option ℤ
  unfolding port_of
  web_port u = if u.port == "" then some (pos 443) else port_of (lib.atoi u.port)

  -- The case of sund+webpki.
  unfoldable pub parse_web_pki : String → Url → Parsed
  unfolding web_port
  parse_web_pki s u =
      if not (u.fragment == "") || lib.contains s "#"
      then rejected no_fragment
      else if lib.is_ip u.hostname
      then rejected dns_name_required
      else elim (web_port u) [
        | none ↦ rejected bad_web_port
        | some port ↦
            parsed (record { mode = web_pki; host = u.hostname; port = port; fingerprint = "" })
      ]

  -- ParseAddress
  unfoldable pub parse_address : String → Parsed
  unfolding parse_pinned parse_web_pki
  parse_address s = elim (lib.parse s) [
    | none ↦ rejected malformed
    | some u ↦
        if u.has_user
          || not (u.path == "") && not (u.path == "/")
          || not (u.raw_query == "")
          || not (u.opaque == "")
        then rejected only_origin
        else if u.hostname == ""
        then rejected missing_host
        else if u.scheme == "sund"
        then parse_pinned u
        else if u.scheme == "sund+webpki"
        then parse_web_pki s u
        else rejected unknown_scheme
  ]

  -- Address.String
  unfoldable pub to_string : Address → String
  to_string a = elim a.mode [
    | pinned ↦ "sund://" <> (lib.join_host_port a.host (lib.itoa a.port) <> ("#" <> a.fingerprint))
    | web_pki ↦
        if is_int a.port 443
        then "sund+webpki://" <> a.host
        else "sund+webpki://" <> lib.join_host_port a.host (lib.itoa a.port)
    | other_mode ↦ ""
  ]

  -- Address.BaseURL
  unfoldable pub base_url : Address → String
  base_url a = "https://" <> lib.join_host_port a.host (lib.itoa a.port)

-- How a client checks the server: by the fingerprint alone, by the platform for a host, or as Go does
-- when nothing is set.
pub data Trust : Type 0 where
  pinned_to : String → Trust
  platform : String → Trust
  unchanged : Trust

-- Address.httpClient; the timeout is left out.
unfoldable pub http_client : Address → Trust
http_client a = elim a.mode [
  | pinned ↦ pinned_to a.fingerprint
  | web_pki ↦ platform a.host
  | other_mode ↦ unchanged
]
