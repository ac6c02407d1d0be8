-- ===== src/Tls/Files.antt =====
-- internal/tlsid/tlsid.go: fileExists, readCert, readKey, writePEM, writeCertPEM, writeKeyPEM.
use sund.Prelude.{
  Bool, true, false, Option, none, some, List, [], ◌∷◌, String, ◌==◌, Bytes, if◌then◌else◌,
}
use sund.Server.Auth.{take}
use sund.Tls.Types.{Certificate, X509, Os, refused, cut_off, complete}

-- The files, by path.
abbrev pub Disk : Type 0
Disk = List (String × Bytes)

-- Why a step fails.
pub data Failure : Type 0 where
  not_made unreadable no_pem malformed not_ecdsa no_key no_der : Failure
  not_written wrong_signer expired : Failure

pub data Answer (A : Type 0) : Type 0 where
  done : A → Answer A
  failed : Failure → Answer A

-- A step that can write files: what it wrote before it fails stays.
abbrev pub Step : Type 0 → Type 0
Step A = Disk → Answer A × Disk

infixl 5 ◌>>=◌ ◌>>◌
abbrev pub ◌>>=◌ : {A B : Type 0} → Step A → (A → Step B) → Step B
◌>>=◌ m f d = let (a, d') = m d in elim a [ done v ↦ f v d' | failed e ↦ (failed e, d') ]

abbrev pub ◌>>◌ : {B : Type 0} → Step (Unit {0}) → Step B → Step B
m >> k = m >>= λ _. k

abbrev pub give : {A : Type 0} → A → Step A
give a d = (done a, d)

abbrev pub or_fail : {A : Type 0} → Option A → Failure → Step A
or_fail (some a) e d = (done a, d)
or_fail none e d = (failed e, d)

abbrev pub require : Bool → Failure → Step (Unit {0})
require true e d = (done tt, d)
require false e d = (failed e, d)

-- A step that only reads.
abbrev pub reads : {A : Type 0} → (Disk → Answer A) → Step A
reads f d = (f d, d)

unfoldable pub find_file : String → Disk → Option Bytes
find_file path [] = none
find_file path (f ∷ d) = if f.0 == path then some f.1 else find_file path d

unfoldable pub put_file : String → Bytes → Disk → Disk
put_file path bytes [] = (path, bytes) ∷ []
put_file path bytes (f ∷ d) = if f.0 == path then (path, bytes) ∷ d else f ∷ put_file path bytes d

unfoldable pub remove_file : String → Disk → Disk
remove_file path [] = []
remove_file path (f ∷ d) = if f.0 == path then remove_file path d else f ∷ remove_file path d

-- fileExists
unfoldable pub file_exists : String → Disk → Bool
file_exists path d = elim (find_file path d) [ none ↦ false | some b ↦ true ]

-- os.ReadFile
unfoldable pub read_file : Os → String → Disk → Option Bytes
read_file os path d = if os.readable path then find_file path d else none

-- os.OpenFile with O_TRUNC, and the write: one that fails leaves what it wrote.
unfoldable pub write_file : Os → String → Bytes → Step (Unit {0})
unfolding take
write_file os path bytes d = elim (os.writing path) [
  | refused ↦ (failed not_written, d)
  | cut_off kept ↦ (failed not_written, put_file path (take kept bytes) d)
  | complete ↦ (done tt, put_file path bytes d)
]

module _ {Key : Type 0} (x : X509 Key) (os : Os) where
  -- The first PEM block of a file.
  unfoldable pub read_pem : String → Disk → Answer Bytes
  unfolding read_file
  read_pem path d = elim (read_file os path d) [
    | none ↦ failed unreadable
    | some bytes ↦ elim (x.pem_decode bytes) [ none ↦ failed no_pem | some der ↦ done der ]
  ]

  -- readCert
  unfoldable pub read_cert : String → Disk → Answer Certificate
  unfolding read_pem
  read_cert path d = elim (read_pem path d) [
    | failed e ↦ failed e
    | done der ↦ elim (x.parse_certificate der) [ none ↦ failed malformed | some c ↦ done c ]
  ]

  -- readKey
  unfoldable pub read_key : String → Disk → Answer Key
  unfolding read_pem
  read_key path d = elim (read_pem path d) [
    | failed e ↦ failed e
    | done der ↦ elim (x.parse_pkcs8 der) [
      | none ↦ failed malformed
      | some none ↦ failed not_ecdsa
      | some (some key) ↦ done key
    ]
  ]

  -- writeCertPEM
  unfoldable pub write_cert_pem : String → Bytes → Step (Unit {0})
  unfolding write_file
  write_cert_pem path der = write_file os path (x.pem_encode "CERTIFICATE" der)

  -- writeKeyPEM
  unfoldable pub write_key_pem : String → Key → Step (Unit {0})
  unfolding write_file
  write_key_pem path key = do
    der ← or_fail (x.marshal_pkcs8 key) no_der
    write_file os path (x.pem_encode "PRIVATE KEY" der)
