-- ===== src/Tls/Types.antt =====
-- internal/tlsid/tlsid.go: certificates, and what the package takes from Go's library.
use sund.Prelude.{ℕ, Bool, Option, List, String, Bytes}

-- What is read of an x509.Certificate: Raw, RawSubjectPublicKeyInfo and NotAfter.
pub record Certificate : Type 0 where
  pub raw : Bytes
  pub spki : Bytes
  pub not_after : ℕ

pub data KeyUsage : Type 0 where
  cert_sign crl_sign digital_signature : KeyUsage

-- The template of a new certificate. The address list of a leaf is its two loopback addresses.
pub record Template : Type 0 where
  pub serial : ℕ
  pub common_name : String
  pub not_before : ℕ
  pub not_after : ℕ
  pub key_usage : List KeyUsage
  pub server_auth : Bool
  pub is_ca : Bool
  pub max_path_len_zero : Bool
  pub dns_names : List String
  pub loopback_addresses : Bool

-- The signer of a new certificate: the template itself, or a CA.
pub data Parent : Type 0 where
  itself : Parent
  signer : Certificate → Parent

-- crypto/sha256, crypto/x509 and encoding/pem. `verify` is Certificate.Verify for ServerAuth, by
-- the roots and the intermediates; the first argument of `create_certificate` is the randomness.
-- `parse_pkcs8` answers `some none` for a key that is not ECDSA.
pub record X509 (Key : Type 0) : Type 0 where
  pub sha256 : Bytes → Bytes
  pub parse_certificate : Bytes → Option Certificate
  pub verify : Certificate → List Certificate → List Certificate → Bool
  pub check_signature_from : Certificate → Certificate → Bool
  pub create_certificate : ℕ → Template → Parent → Key → Key → Option Bytes
  pub pem_decode : Bytes → Option Bytes
  pub pem_encode : String → Bytes → Bytes
  pub parse_pkcs8 : Bytes → Option (Option Key)
  pub marshal_pkcs8 : Key → Option Bytes

-- How a file is written: not at all, cut off after so many bytes, or in full.
pub data Writing : Type 0 where
  refused complete : Writing
  cut_off : ℕ → Writing

-- path/filepath and os: the path of a name in a directory, and which calls the system lets through.
pub record Os : Type 0 where
  pub join : String → String → String
  pub mkdir_all : String → Bool
  pub readable : String → Bool
  pub writing : String → Writing

-- What one Load draws and reads: two keys, the randomness of two certificates, two serial numbers,
-- and the clock in each place.
pub record Draws (Key : Type 0) : Type 0 where
  pub ca_key : Option Key
  pub ca_random : ℕ
  pub ca_serial : ℕ
  pub ca_from : ℕ
  pub ca_to : ℕ
  pub leaf_key : Option Key
  pub leaf_random : ℕ
  pub leaf_serial : ℕ
  pub leaf_from : ℕ
  pub leaf_to : ℕ
  pub leaf_checked : ℕ

-- A tls.Certificate: the chain that the server presents, and the leaf's key.
pub record Chain (Key : Type 0) : Type 0 where
  pub certificates : List Bytes
  pub private_key : Key
  pub leaf : Certificate

pub record Identity (Key : Type 0) : Type 0 where
  pub ca : Certificate
  pub server_chain : Chain Key
  pub fingerprint : String
