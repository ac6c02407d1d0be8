-- ===== src/Server/Auth.antt =====
-- internal/server/auth.go: extractSignature, verifyAndRecord, requireSignature.
use sund.Prelude.{
  ℕ, zero, suc, ◌+◌, Bool, not, ◌||◌, Option, none, some, [], ◌∷◌, String, ◌<>◌, ◌==◌, Bytes, ltb,
  if◌then◌else◌,
}
use sund.Sigauth.{signing_string}
use sund.Store.Tables.{Device}
use sund.Store.Devices.{get_device, touch_last_seen}
use sund.Server.Nonces.{check_and_add}
use sund.Server.Types.{
  Library, Request, Handler, ◌>>=◌, ◌>>◌, write_error, give, gets, modify_db, require, or_reply,
  read_store,
}

abbrev pub max_body_bytes : ℕ
max_body_bytes = 1048576

-- io.LimitReader
unfoldable pub take : ℕ → Bytes → Bytes
take zero xs = []
take (suc n) [] = []
take (suc n) (x ∷ xs) = x ∷ take n xs

-- `signed_at` is the parsed timestamp.
pub record SigEnvelope : Type 0 where
  pub timestamp : String
  pub nonce : String
  pub signature : Bytes
  pub body : Bytes
  pub signed_at : ℕ

-- skew > clockSkew || skew < -clockSkew
abbrev pub is_skewed : ℕ → ℕ → ℕ → Bool
is_skewed clock_skew now ts = ltb (ts + clock_skew) now || ltb (now + clock_skew) ts

module _ (lib : Library) where
  -- extractSignature
  unfoldable pub extract_signature : Request → ℕ → Option SigEnvelope
  extract_signature r clock_skew = elim (lib.parse_time r.timestamp) [
    | none ↦ none
    | some ts ↦ elim (lib.decode_string r.signature) [
      | none ↦ none
      | some sig ↦
          if r.timestamp == ""
            || r.nonce == ""
            || r.signature == ""
            || is_skewed clock_skew r.time_checked ts
          then none
          else some (record {
            timestamp = r.timestamp;
            nonce = r.nonce;
            signature = sig;
            body = take max_body_bytes r.body;
            signed_at = ts;
          })
    ]
  ]

  unfoldable pub is_signed : Request → SigEnvelope → Bytes → Bool
  is_signed r env key =
      lib.verify key (signing_string lib.sha256 r.method r.path env.timestamp env.nonce env.body)
        env.signature

  -- The key of the nonce cache: the principal, a zero byte and the nonce.
  unfoldable pub nonce_key : String → String → String
  nonce_key principal nonce = principal <> ("\0" <> nonce)

  -- verifyAndRecord: 401 unless the signature holds and the nonce is new.
  unfoldable pub verify_and_record : Request → SigEnvelope → String → Bytes → Handler (Unit {0})
  unfolding is_signed nonce_key
  verify_and_record r env principal key s =
      if not (is_signed r env key)
      then write_error 401 "unauthorized" s
      else let (fresh, nonces') =
          check_and_add (nonce_key principal env.nonce) (env.signed_at + s.clock_skew)
            r.time_recorded s.nonces in
        require fresh 401 "unauthorized" (record s { nonces = nonces' })

  -- requireSignature: the device that made the request.
  unfoldable pub require_signature : Request → Handler Device
  unfolding extract_signature verify_and_record
  require_signature r = do
    require (not (r.device_id == "")) 401 "unauthorized"
    skew ← gets (λ s. s.clock_skew)
    env ← or_reply (extract_signature r skew) 401 "unauthorized"
    dev ← read_store (λ db. get_device db r.device_id) (λ _. (401, "unauthorized"))
    require (not dev.revoked) 401 "unauthorized"
    verify_and_record r env r.device_id dev.public_key
    modify_db (touch_last_seen r.device_id r.time_stored)
    give dev
