-- ===== src/Tests/AnswerRuns.antt =====
-- The theorems on answers, on the nonce cache and on the signing string at concrete inputs.
use sund.Prelude.{◌<◌, ◌≡◌, ◌⊎◌, String, refl, [], ◌∷◌, Bytes, All, hex, bytes_eq, arith}
use sund.Sigauth.{signing_string}
use sund.Sigauth.Covers.{signing_string-covers}
use sund.Sql.{find_row, update, count, has_row}
use sund.Store.Tables.{new_id}
use sund.Store.Accounts.{create_account, resolve_quota, quota_bytes_for_class}
use sund.Store.Invitations.{create_invitation, granted_role, hash_token}
use sund.Store.Devices.{
  register_device, consume, enroll, insert_device, registered_role, get_device,
}
use sund.Store.Queues.{create_queue}
use sund.Store.Commands.{execute, run}
use sund.Server.Types.{Request, error}
use sund.Server.Nonces.{check_and_add}
use sund.Server.Auth.{
  extract_signature, is_signed, nonce_key, verify_and_record, require_signature, take,
}
use sund.Server.Devices.{handle_revoke}
use sund.Server.Routes.{revoke, route}
use sund.Server.Authority.{Authorized}
use sund.Server.Authority.Routes.{route-Authorized}
use sund.Server.Unauthorized.{unauthorized-unchanged}
use sund.Server.Forgetting.{remember, answers, check_and_add-remember}
use sund.Tests.World.{library, server, asking, world-IsKeyed}

route-Authorized_example :
    ((route library revoke asking server).1.db ≡ server.db)
    ⊎ Authorized library revoke asking server (route library revoke asking server).1.db
route-Authorized_example = route-Authorized library revoke asking server world-IsKeyed

-- A request whose signature is not the device's.
abbrev forged : Request
forged = record asking { signature = "forged" }

unauthorized-unchanged_example : server.db ≡ server.db
unfolding find_row update count has_row new_id create_account resolve_quota quota_bytes_for_class
    create_invitation granted_role hash_token register_device consume enroll insert_device
    registered_role create_queue execute run hex get_device extract_signature is_signed nonce_key
    verify_and_record require_signature take bytes_eq handle_revoke route
unauthorized-unchanged_example =
    unauthorized-unchanged library revoke forged server server
      (record { status = 401; body = error "unauthorized" }) world-IsKeyed refl refl

-- A call, a call for another key when the first has expired, and the first again.
check_and_add-remember_example :
    answers check_and_add (("k", 20, 10) ∷ ("l", 50, 30) ∷ ("k", 60, 40) ∷ []) []
    ≡ answers remember (("k", 20, 10) ∷ ("l", 50, 30) ∷ ("k", 60, 40) ∷ []) []
check_and_add-remember_example =
    check_and_add-remember (("k", 20, 10) ∷ ("l", 50, 30) ∷ ("k", 60, 40) ∷ [])
      (omega arith, (omega arith, (omega arith, tt)))

-- A hash of two bytes.
abbrev two_bytes : Bytes → Bytes
two_bytes b = 1 ∷ 2 ∷ []

abbrev are_bytes : (b : Bytes) → All (λ n. n < 256) (two_bytes b)
are_bytes b = (omega arith, (omega arith, tt))

abbrev method : String
method = "PUT"

abbrev path : String
path = "/v1"

abbrev instant : String
instant = "now"

abbrev nonce : String
nonce = "0fa"

signing_string-covers_example :
    (method ≡ method)
    × (path ≡ path)
    × (instant ≡ instant)
    × (nonce ≡ nonce)
    × (two_bytes [] ≡ two_bytes (3 ∷ []))
unfolding signing_string
signing_string-covers_example =
    signing_string-covers two_bytes method method path path instant instant nonce nonce [] (3 ∷ [])
      are_bytes
      (
        (omega arith, (omega arith, (omega arith, tt))),
        (omega arith, (omega arith, (omega arith, tt))),
        (omega arith, (omega arith, (omega arith, tt))),
        (omega arith, (omega arith, (omega arith, tt))),
      )
      (
        (omega arith, (omega arith, (omega arith, tt))),
        (omega arith, (omega arith, (omega arith, tt))),
        (omega arith, (omega arith, (omega arith, tt))),
        (omega arith, (omega arith, (omega arith, tt))),
      )
      refl
