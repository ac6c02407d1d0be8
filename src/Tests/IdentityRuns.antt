-- ===== src/Tests/IdentityRuns.antt =====
-- The theorems on certificates and fingerprints at concrete inputs.
use sund.Prelude.{
  ℕ, nat_eq, if◌then◌else◌, ◌≡◌, ap, sym, refl, arith, Bool, Option, true, none, some, List, [],
  ◌∷◌, Bytes, hex,
}
use sund.Tls.Types.{Certificate, X509, Os, Draws, Identity, Parent, itself, signer, complete}
use sund.Tls.Verify.{
  accepted, spki_fingerprint, parse_all, first_pinned, verify_chain, verify_pinned,
}
use sund.Tls.Files.{
  done, Disk, find_file, put_file, remove_file, file_exists, read_file, write_file, read_pem,
  read_cert, read_key, write_cert_pem, write_key_pem,
}
use sund.Tls.Load.{
  load, load_or_create_ca, load_or_create_leaf, create_ca, create_leaf, load_leaf, read_pair,
  ca_template, leaf_template,
}
use sund.Tls.Sound.{IsTrusted, verify_pinned-IsTrusted}
use sund.Tls.Stable.{IsApart, rotate}
use sund.Tls.Rotation.{IsWorking, rotation-succeeds}
use sund.Tests.World.{apart}

-- A key is a number; a certificate is a list of one or two numbers, its key and its signer's. PEM is
-- the bytes themselves.
abbrev number : Option Bytes → ℕ
number (some (k ∷ b)) = k
number _ = 0

abbrev certificate : Bytes → Certificate
certificate b = record { raw = b; spki = number (some b) ∷ []; not_after = 100 }

-- The public key of a key.
abbrev public : ℕ → Bytes
public key = key ∷ []

-- Only a key that matches its certificate signs.
abbrev signs : Parent → ℕ → ℕ → Bool
signs itself key signing = nat_eq key signing
signs (signer ca) key signing = nat_eq (number (some ca.spki)) signing

abbrev pub x509 : X509 ℕ
x509 = record {
  sha256 = λ b. b;
  parse_certificate = λ b. some (certificate b);
  verify = λ leaf roots intermediates. true;
  check_signature_from = λ leaf ca. true;
  create_certificate = λ random template parent key signing.
      if signs parent key signing then some (key ∷ signing ∷ []) else none;
  pem_decode = λ b. some b;
  pem_encode = λ t b. b;
  parse_pkcs8 = λ b. some (some (number (some b)));
  marshal_pkcs8 = λ key. some (key ∷ []);
}

abbrev leaf_and_ca : List Bytes
leaf_and_ca = (7 ∷ []) ∷ (9 ∷ []) ∷ []

verify_pinned-IsTrusted_example :
    ((verify_pinned x509 leaf_and_ca "09" ≡ accepted) → IsTrusted x509 leaf_and_ca "09")
    × (IsTrusted x509 leaf_and_ca "09" → (verify_pinned x509 leaf_and_ca "09" ≡ accepted))
verify_pinned-IsTrusted_example = verify_pinned-IsTrusted x509 leaf_and_ca "09"

accepts : verify_pinned x509 leaf_and_ca "09" ≡ accepted
unfolding verify_pinned verify_chain parse_all first_pinned spki_fingerprint hex
accepts = refl

abbrev pub os : Os
os = record {
  join = λ dir name. name;
  mkdir_all = λ dir. true;
  readable = λ path. true;
  writing = λ path. complete;
}

abbrev draws : Draws ℕ
draws = record {
  ca_key = some 9;
  ca_random = 1;
  ca_serial = 1;
  ca_from = 10;
  ca_to = 10;
  leaf_key = some 7;
  leaf_random = 2;
  leaf_serial = 2;
  leaf_from = 10;
  leaf_to = 10;
  leaf_checked = 10;
}

abbrev later_draws : Draws ℕ
later_draws = record draws { ca_key = some 3; leaf_key = some 8 }

files-IsApart : IsApart os "tls"
files-IsApart = record {
  keys = apart "ca.crt" "ca.key" refl;
  cert_leaf = apart "ca.crt" "server.crt" refl;
  cert_leaf_key = apart "ca.crt" "server.key" refl;
  key_leaf = apart "ca.key" "server.crt" refl;
  key_leaf_key = apart "ca.key" "server.key" refl;
}

abbrev ca : Certificate
ca = certificate (9 ∷ 9 ∷ [])

abbrev first_disk : Disk
first_disk =
    ("ca.crt", 9 ∷ 9 ∷ [])
    ∷ ("ca.key", 9 ∷ [])
    ∷ ("server.crt", 7 ∷ 9 ∷ [])
    ∷ ("server.key", 7 ∷ [])
    ∷ []

abbrev second_disk : Disk
second_disk =
    ("ca.crt", 9 ∷ 9 ∷ [])
    ∷ ("ca.key", 9 ∷ [])
    ∷ ("server.crt", 8 ∷ 5 ∷ [])
    ∷ ("server.key", 8 ∷ [])
    ∷ []

abbrev identity : Bytes → ℕ → Identity ℕ
identity leaf key = record {
  ca = ca;
  server_chain = record {
    certificates = leaf ∷ (9 ∷ 9 ∷ []) ∷ [];
    private_key = key;
    leaf = certificate leaf;
  };
  fingerprint = "09";
}

system-IsWorking : IsWorking x509 os "tls" public later_draws
system-IsWorking = record {
  makes = refl;
  reads = λ p. refl;
  writes = λ p. refl;
  decodes = λ t b. refl;
  marshals = λ k. (k ∷ [], refl);
  parses = λ k der e. ap (λ o. some (some (number o))) (sym e);
  self_signed = λ n t k der ca e f. ground arith;
  certifies = λ ca_der ca k s e f. (k ∷ s ∷ [], certificate (k ∷ s ∷ []), ground arith, refl);
}

rotation-succeeds_example :
    (id' : Identity ℕ) × (d'' : Disk) × (load x509 os later_draws "tls" (rotate os "tls" first_disk)
      ≡ (done id', d''))
    × (id'.fingerprint ≡ "09")
unfolding load load_or_create_ca load_or_create_leaf create_ca create_leaf load_leaf read_pair
    read_cert read_key read_pem read_file write_file write_cert_pem write_key_pem find_file put_file
    remove_file file_exists spki_fingerprint hex ca_template leaf_template
rotation-succeeds_example =
    rotation-succeeds x509 os "tls" public later_draws system-IsWorking draws 8
      (identity (7 ∷ 9 ∷ []) 7) [] first_disk files-IsApart (λ ca key e f. absurd (cc e)) refl refl
