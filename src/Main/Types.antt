-- ===== src/Main/Types.antt =====
-- main.go: the machine that a subcommand runs on, and what it takes from Go's library.
use sund.Prelude.{
  ℕ, Bool, Option, none, some, List, [], ◌∷◌, ◌++◌, String, ◌==◌, Bytes, ℤ, if◌then◌else◌,
}
use sund.Store.Tables.{Db, Error, Result, ok, err}
use sund.Server.Types.{Priority}
use sund.Push.{Poster}
use sund.Tls.Types.{X509, Os}
use sund.Tls.Files.{Disk}
use sund.Tls.Files.{Failure as TlsFailure}

-- The flags that a command line gives, by name, and the arguments after them.
pub record Flags : Type 0 where
  pub text : String → Option String
  pub number : String → Option ℤ
  pub switch : String → Option Bool
  pub args : List String

-- os.Getenv; package flag, where a command line that does not parse ends the process;
-- strconv.ParseInt; what a probe of a URL is answered by; the client of the pings; and the hash of
-- the store.
pub record Environment (Key : Type 0) : Type 0 where
  pub getenv : String → String
  pub parse : List String → Option Flags
  pub parse_int : String → Option ℤ
  pub probe : String → Option ℕ
  pub poster : Poster
  pub sha256 : Bytes → Bytes
  pub x509 : X509 Key
  pub os : Os

-- The clock and the randomness of one run.
pub record Run : Type 0 where
  pub now : ℕ
  pub random : Bytes
  pub random' : Bytes
  pub token : String

-- What a run prints.
pub data Line : Type 0 where
  account_created : String → String → String → Line
  promoted : String → Line
  ceiling : String → ℤ → ℕ → Line
  ceiling_set : String → ℤ → Line
  fingerprint_only : String → Line
  address : String → String → Line
  not_listed : Line
  not_pinged : String → Line

pub data Failure : Type 0 where
  usage exited not_opened bad_bytes not_probed : Failure
  unhealthy : ℕ → Failure
  store_failed : Error → Failure
  tls_failed : TlsFailure → Failure

-- The database that store.Open answers with at a path, if it can; the files; the pings that were
-- tried and the lines that were printed, oldest first.
pub record Machine : Type 0 where
  pub databases : String → Option Db
  pub disk : Disk
  pub pings : List (String × Priority)
  pub output : List Line

pub data Answer (A : Type 0) : Type 0 where
  done : A → Answer A
  failed : Failure → Answer A

abbrev pub Step : Type 0 → Type 0
Step A = Machine → Answer A × Machine

infixl 5 ◌>>=◌ ◌>>◌
abbrev pub ◌>>=◌ : {A B : Type 0} → Step A → (A → Step B) → Step B
◌>>=◌ m f s = let (a, s') = m s in elim a [ done v ↦ f v s' | failed e ↦ (failed e, s') ]

abbrev pub ◌>>◌ : {B : Type 0} → Step (Unit {0}) → Step B → Step B
m >> k = m >>= λ _. k

abbrev pub fail : {A : Type 0} → Failure → Step A
fail e s = (failed e, s)

abbrev pub or_fail : {A : Type 0} → Option A → Failure → Step A
or_fail (some a) e s = (done a, s)
or_fail none e s = (failed e, s)

abbrev pub print : Line → Step (Unit {0})
print line s = (done tt, record s { output = s.output ++ line ∷ [] })

-- store.Open
abbrev pub open_store : String → Step Db
open_store path s = or_fail (s.databases path) not_opened s

-- A method of the store at the path.
abbrev pub run_store : {A : Type 0} → String → (Db → Result (A × Db)) → Step A
run_store path f s = elim (s.databases path) [
  | none ↦ (failed not_opened, s)
  | some db ↦ elim (f db) [
    | err e ↦ (failed (store_failed e), s)
    | ok (a, db') ↦
        (done a, record s { databases = λ p. if p == path then some db' else s.databases p })
  ]
]

-- The same for a read.
abbrev pub read_store : {A : Type 0} → String → (Db → Result A) → Step A
read_store path f s = elim (s.databases path) [
  | none ↦ (failed not_opened, s)
  | some db ↦ elim (f db) [ err e ↦ (failed (store_failed e), s) | ok a ↦ (done a, s) ]
]

abbrev pub or_default : {A : Type 0} → Option A → A → A
or_default none a = a
or_default (some b) a = b

module _ {Key : Type 0} (env : Environment Key) where
  -- envOr
  unfoldable pub env_or : String → String → String
  env_or key default = if env.getenv key == "" then default else env.getenv key

  -- A text flag whose default is an environment variable's or a constant.
  unfoldable pub flag_or_env : Flags → String → String → String → String
  unfolding env_or
  flag_or_env flags name key default = or_default (flags.text name) (env_or key default)
