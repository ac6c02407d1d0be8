-- ===== src/Main/Serve.antt =====
-- main.go: runServe, runCert, runHealth, checkHealth, portSuffix, healthURL.
use Prim.Native.Char.{code}
use sund.Prelude.{
  Bool, true, false, not, Option, none, some, List, [], ◌∷◌, String, ◌<>◌, ◌==◌, nat_eq,
  if◌then◌else◌,
}
use sund.Tls.Types.{Draws, Identity, Chain}
use sund.Tls.Files.{done as loaded, failed as not_loaded}
use sund.Tls.Load.{load}
use sund.Main.Types.{
  Flags, Environment, fingerprint_only, address, usage, exited, not_probed, unhealthy, tls_failed,
  done, failed, Step, ◌>>=◌, fail, or_fail, print, open_store, or_default, env_or, flag_or_env,
}

abbrev pub default_tls_dir : String
default_tls_dir = "tls"

-- The text from the last colon on, if it has one.
unfoldable pub from_last_colon : String → Option String
from_last_colon String.[] = none
from_last_colon (String.◌∷◌ c s) =
    let rest = from_last_colon s in
    elim rest [
      | some t ↦ some t
      | none ↦ if nat_eq (code c) 58 then some (String.◌∷◌ c s) else none
    ]

-- portSuffix
unfoldable pub port_suffix : String → String
unfolding from_last_colon
port_suffix addr = elim (from_last_colon addr) [ none ↦ "" | some t ↦ t ]

-- strings.HasPrefix(host, ":")
unfoldable pub starts_with_colon : String → Bool
starts_with_colon String.[] = false
starts_with_colon (String.◌∷◌ c s) = nat_eq (code c) 58

-- healthURL
unfoldable pub health_url : String → Bool → String
unfolding starts_with_colon
health_url addr plain_http =
    let host = if starts_with_colon addr then "127.0.0.1" <> addr else addr in
    if plain_http then "http://" <> (host <> "/health") else "https://" <> (host <> "/health")

-- How the server is run: plain, or with a chain of certificates.
pub data Serving (Key : Type 0) : Type 0 where
  plain : String → Serving Key
  pinned : String → Chain Key → Serving Key

module _ {Key : Type 0} (env : Environment Key) where
  -- tlsid.Load on the machine's files.
  abbrev load_identity : Draws Key → String → Step (Identity Key)
  load_identity w dir s =
      let (a, disk') = load env.x509 env.os w dir s.disk in
      elim a [
        | loaded id ↦ (done id, record s { disk = disk' })
        | not_loaded e ↦ (failed (tls_failed e), record s { disk = disk' })
      ]

  abbrev plain_http : Flags → Bool
  plain_http flags = or_default (flags.switch "http") (not (env_or env "SUND_HTTP" "" == ""))

  -- runServe, up to the start of the server.
  unfoldable pub run_serve : Draws Key → List String → Step (Serving Key)
  unfolding flag_or_env env_or load
  run_serve w args = do
    flags ← or_fail (env.parse args) exited
    db ← open_store (flag_or_env env flags "db" "SUND_DB" "sund.db")
    serving flags
    where
      serving : Flags → Step (Serving Key)
      serving flags = elim (plain_http flags) [
        | true ↦ λ s. (done (plain (flag_or_env env flags "addr" "SUND_ADDR" ":5870")), s)
        | false ↦ do
          id ← load_identity w (flag_or_env env flags "tls-dir" "SUND_TLS_DIR" default_tls_dir)
          λ s. (done (pinned (flag_or_env env flags "addr" "SUND_ADDR" ":5870") id.server_chain), s)
      ]

  -- The directory that runCert reads.
  unfoldable pub cert_dir : Flags → String
  unfolding flag_or_env env_or
  cert_dir flags = flag_or_env env flags "tls-dir" "SUND_TLS_DIR" "certs"

  -- runCert
  unfoldable pub run_cert : Draws Key → List String → Step (Unit {0})
  unfolding cert_dir load
  run_cert w [] = fail usage
  run_cert w (command ∷ args) = if not (command == "fingerprint") then fail usage else do
    flags ← or_fail (env.parse args) exited
    id ← load_identity w (cert_dir flags)
    print (
        if or_default (flags.text "host") "" == ""
        then fingerprint_only id.fingerprint
        else address (or_default (flags.text "host") "") id.fingerprint)

  -- checkHealth: no answer in time, or an answer other than 200, is an error.
  unfoldable pub check_health : String → Step (Unit {0})
  check_health url = elim (env.probe url) [
    | none ↦ fail not_probed
    | some status ↦ if nat_eq status 200 then (λ s. (done tt, s)) else fail (unhealthy status)
  ]

  -- runHealth
  unfoldable pub run_health : List String → Step (Unit {0})
  unfolding flag_or_env env_or health_url check_health
  run_health args = do
    flags ← or_fail (env.parse args) exited
    check_health (health_url (flag_or_env env flags "addr" "SUND_ADDR" ":5870") (plain_http flags))
