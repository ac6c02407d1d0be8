-- ===== src/Tests/ClientRuns.antt =====
-- The theorems on the client at concrete inputs.
use Prim.Native.Char.{code}
use text.Mathlib.TextLemmas.{cons≢nil}
use sund.Prelude.{
  ℕ, zero, suc, ◌+◌, ◌*◌, nat_eq, ap, ◌∙◌, ◌≡◌, ◌≢◌, refl, true, false, Option, none, some, [], ◌∷◌,
  String, ◌<>◌, ◌==◌, Bytes, codes, hex, pos, if◌then◌else◌, bytes_eq, arith,
}
use sund.Sigauth.{signing_string}
use sund.Sql.{find_row, update, count, has_row}
use sund.Store.Tables.{new_id, format, second}
use sund.Store.Accounts.{create_account, resolve_quota, quota_bytes_for_class}
use sund.Store.Invitations.{create_invitation, granted_role, hash_token}
use sund.Store.Devices.{
  register_device, consume, enroll, insert_device, registered_role, get_device,
}
use sund.Store.Queues.{create_queue}
use sund.Store.Commands.{execute, run}
use sund.Server.Types.{Library, Request, next}
use sund.Server.Nonces.{check_and_add, sweep, seen, put_nonce, is_replay}
use sund.Server.Auth.{require_signature, nonce_key}
use sund.Client.Types.{ClientLibrary, HttpRequest, Draw, set_header}
use sund.Client.Conn.{sign, sign_if, encode, content_type, build}
use sund.Client.Signed.{IsCompatible, arrived, device-authenticated}
use sund.Client.Address.{
  Address, pinned, UrlLibrary, parsed, chars, all_hex, valid_fingerprint, port_of, parse_pinned,
  parse_address, to_string,
}
use sund.Client.Address.RoundTrip.{
  IsAddress, Reads, origin, parse_address-IsAddress, parse_address-to_string,
}
use sund.Tests.World.{key_text, library, server, asking, first_device, apart}

-- A number as so many characters, before a text.
tally : ℕ → String → String
tally zero s = s
tally (suc n) s = String.◌∷◌ "x" (tally n s)

-- A code for lists of numbers: each is tallied, and ends with a comma.
write : Bytes → String
write [] = String.[]
write (b ∷ bs) = tally b (String.◌∷◌ "," (write bs))

read : ℕ → String → Bytes
read n String.[] = []
read n (String.◌∷◌ c s) =
    let rest = read (suc n) s in if nat_eq (code c) 44 then n ∷ read 0 s else rest

read-tally : (m n : ℕ) (s : String) → read m (tally n s) ≡ read (m + n) s
unfolding read tally
read-tally m zero s = ap (λ k. read k s) (omega arith)
read-tally m (suc n) s = read-tally (suc m) n s ∙ ap (λ k. read k s) (omega arith)

read-write : (bs : Bytes) → read 0 (write bs) ≡ bs
unfolding read write
read-write [] = refl
read-write (b ∷ bs) =
    read-tally 0 b (String.◌∷◌ "," (write bs))
    ∙ ap (λ k. read k (String.◌∷◌ "," (write bs))) (omega arith)
    ∙ ap (λ r. b ∷ r) (read-write bs)

-- The instant at the beginning of the second that is the first number.
first_second : Bytes → Option ℕ
first_second [] = none
first_second (b ∷ bs) = some (b * second)

-- A signature is the number one.
abbrev client_library : ClientLibrary (Unit {0})
client_library = record {
  public = λ key. codes key_text;
  sign = λ key m. 1 ∷ [];
  sha256 = λ b. b;
  encode_string = write;
  decode_string = λ s. some (read 0 s);
  decoded_part = read 0;
  format_time = λ t. write (format t ∷ []);
  parse_time = λ s. first_second (read 0 s);
  format_int = λ i. "0";
  trim_right = λ s cut. s;
  is_request = λ method url. true;
  json_marshal = λ fields. some (1 ∷ 2 ∷ []);
  json_error = λ b. none;
  json_health = λ b. none;
  json_registered = λ b. none;
  json_devices = λ b. none;
  json_invitation = λ b. none;
  json_quota = λ b. none;
  json_invitations = λ b. none;
  json_bundle = λ b. none;
  json_queue = λ b. none;
  json_statement = λ b. none;
  json_statements = λ b. none;
  json_messages = λ b. none;
  json_deleted = λ b. none;
  json_message_id = λ b. none;
}

abbrev server_library : Library
server_library = record library {
  verify = λ key m signature. bytes_eq signature (1 ∷ []);
  decode_string = λ s. some (read 0 s);
  parse_time = λ s. first_second (read 0 s);
}

libraries-IsCompatible : IsCompatible client_library server_library
unfolding first_second bytes_eq write tally
libraries-IsCompatible = record {
  verifies = λ key m. refl;
  decodes = λ b. ap some (read-write b);
  signature_text = λ key m. cons≢nil;
  parses = λ t. ap first_second (read-write (format t ∷ []));
  time_text = λ t. time_text (format t);
  hashes = λ b. refl;
}
  where
    time_text : (t : ℕ) → write (t ∷ []) ≢ ""
    time_text zero = cons≢nil
    time_text (suc t) = cons≢nil

abbrev draw : Draw
draw = record { nonce = some (7 ∷ []); now = 3000000005 }

abbrev made : HttpRequest
made = record {
  method = "POST";
  url = "https://host/v1/devices/dev_02/revoke";
  headers =
      ("Sund-Device-Id", "dev_01")
      ∷ ("Sund-Timestamp", "xxx,")
      ∷ ("Sund-Nonce", "07")
      ∷ ("Sund-Signature", "x,")
      ∷ [];
  body = [];
}

abbrev received : Request
received = record asking {
  time_checked = 4 * second;
  time_recorded = 4 * second;
  time_stored = 5 * second;
}

device-authenticated_example :
    (require_signature server_library (arrived made "/v1/devices/dev_02/revoke" received) server).0
    ≡ next first_device
unfolding find_row update count has_row new_id create_account resolve_quota quota_bytes_for_class
    create_invitation granted_role hash_token register_device consume enroll insert_device
    registered_role create_queue execute run hex get_device check_and_add sweep seen put_nonce
    is_replay nonce_key build sign_if sign encode content_type set_header write tally signing_string
device-authenticated_example =
    device-authenticated client_library server_library libraries-IsCompatible draw tt "https://host"
      "dev_01" "POST" "/v1/devices/dev_02/revoke" none (7 ∷ []) made received server first_device
      refl (λ e. cc e) (apart "dev_01" "" refl) refl (omega arith) refl refl refl refl refl

-- 64 digits.
abbrev print : String
print = "00112233445566778899aabbccddeeff00112233445566778899aabbccddeeff"

abbrev home : Address
home = record { mode = pinned; host = "home"; port = pos 5870; fingerprint = print }

abbrev home_text : String
home_text = "sund://home:5870#00112233445566778899aabbccddeeff00112233445566778899aabbccddeeff"

-- A net/url that knows one address.
abbrev urls : UrlLibrary
urls = record {
  parse = λ s. if s == home_text then some (origin "sund" "home" "5870" print) else none;
  is_ip = λ s. false;
  atoi = λ s. some (pos 5870);
  itoa = λ i. "5870";
  join_host_port = λ host port. host <> (":" <> port);
  contains = λ s part. true;
}

parse_address-IsAddress_example : IsAddress urls home
unfolding parse_address parse_pinned valid_fingerprint chars all_hex port_of
parse_address-IsAddress_example = parse_address-IsAddress urls home_text home refl

home-IsAddress : IsAddress urls home
unfolding valid_fingerprint chars all_hex
home-IsAddress = record {
  host = apart "home" "" refl;
  port = (5870, refl, omega arith, omega arith);
  fits = refl;
}

home-Reads : Reads urls home
home-Reads = record {
  pinned_url = λ e. refl;
  web_url = λ e. cc e;
  web_port_url = λ e. cc e;
  atoi = refl;
  itoa = apart "5870" "" refl;
  no_hash = λ e. cc e;
  no_hash_port = λ e. cc e;
}

parse_address-to_string_example : parse_address urls (to_string urls home) ≡ parsed home
parse_address-to_string_example = parse_address-to_string urls home home-IsAddress home-Reads
