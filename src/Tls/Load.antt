-- ===== src/Tls/Load.antt =====
-- internal/tlsid/tlsid.go: Load, loadOrCreateCA, createCA, loadOrCreateLeaf, loadLeaf, createLeaf.
use sund.Prelude.{ℕ, ◌+◌, ◌-◌, ◌*◌, true, false, not, ◌&&◌, [], ◌∷◌, String, ltb, if◌then◌else◌}
use sund.Tls.Types.{
  Certificate, Template, X509, Os, Draws, Chain, Identity, itself, signer, cert_sign, crl_sign,
  digital_signature,
}
use sund.Tls.Verify.{spki_fingerprint}
use sund.Tls.Files.{
  Disk, Answer, done, failed, Step, ◌>>=◌, ◌>>◌, give, or_fail, require, reads, file_exists,
  read_cert, read_key, write_cert_pem, write_key_pem, not_made, no_key, no_der, malformed,
  wrong_signer, expired,
}

-- Durations in seconds.
abbrev pub hour : ℕ
hour = 3600

abbrev pub ca_validity : ℕ
ca_validity = 10 * 365 * 24 * hour

abbrev pub leaf_validity : ℕ
leaf_validity = 397 * 24 * hour

unfoldable pub ca_template : ℕ → ℕ → ℕ → Template
ca_template serial from to = record {
  serial = serial;
  common_name = "Sund Offline CA";
  not_before = from - hour;
  not_after = to + ca_validity;
  key_usage = cert_sign ∷ crl_sign ∷ [];
  server_auth = false;
  is_ca = true;
  max_path_len_zero = true;
  dns_names = [];
  loopback_addresses = false;
}

unfoldable pub leaf_template : ℕ → ℕ → ℕ → Template
leaf_template serial from to = record {
  serial = serial;
  common_name = "Sund";
  not_before = from - hour;
  not_after = to + leaf_validity;
  key_usage = digital_signature ∷ [];
  server_auth = true;
  is_ca = false;
  max_path_len_zero = false;
  dns_names = "localhost" ∷ [];
  loopback_addresses = true;
}

module _ {Key : Type 0} (x : X509 Key) (os : Os) (w : Draws Key) where
  -- createCA
  unfoldable pub create_ca : String → String → Step (Certificate × Key)
  unfolding ca_template write_cert_pem write_key_pem
  create_ca cert_path key_path = do
    key ← or_fail w.ca_key no_key
    der ←
        or_fail
          (x.create_certificate w.ca_random (ca_template w.ca_serial w.ca_from w.ca_to) itself key
            key)
          no_der
    write_cert_pem x os cert_path der
    write_key_pem x os key_path key
    cert ← or_fail (x.parse_certificate der) malformed
    give (cert, key)

  -- The pair of files.
  unfoldable pub read_pair : String → String → Disk → Answer (Certificate × Key)
  unfolding read_cert read_key
  read_pair cert_path key_path d = elim (read_cert x os cert_path d) [
    | failed e ↦ failed e
    | done cert ↦ elim (read_key x os key_path d) [
      | failed e ↦ failed e
      | done key ↦ done (cert, key)
    ]
  ]

  -- loadOrCreateCA
  unfoldable pub load_or_create_ca : String → String → Step (Certificate × Key)
  unfolding file_exists read_pair create_ca
  load_or_create_ca cert_path key_path d =
      if file_exists cert_path d && file_exists key_path d
      then reads (read_pair cert_path key_path) d
      else create_ca cert_path key_path d

  -- loadLeaf
  unfoldable pub load_leaf : String → String → Certificate → Disk → Answer (Chain Key)
  unfolding read_pair
  load_leaf cert_path key_path ca d = elim (read_pair cert_path key_path d) [
    | failed e ↦ failed e
    | done (leaf, key) ↦
        if not (x.check_signature_from leaf ca)
        then failed wrong_signer
        else if ltb leaf.not_after w.leaf_checked
        then failed expired
        else done (record { certificates = leaf.raw ∷ ca.raw ∷ []; private_key = key; leaf = leaf })
  ]

  -- createLeaf
  unfoldable pub create_leaf : String → String → Certificate → Key → Step (Chain Key)
  unfolding leaf_template write_cert_pem write_key_pem
  create_leaf cert_path key_path ca ca_key = do
    key ← or_fail w.leaf_key no_key
    der ←
        or_fail
          (x.create_certificate w.leaf_random (leaf_template w.leaf_serial w.leaf_from w.leaf_to)
            (signer ca) key ca_key)
          no_der
    write_cert_pem x os cert_path der
    write_key_pem x os key_path key
    leaf ← or_fail (x.parse_certificate der) malformed
    give (record { certificates = der ∷ ca.raw ∷ []; private_key = key; leaf = leaf })

  -- loadOrCreateLeaf: any failure of the load makes a new leaf.
  unfoldable pub load_or_create_leaf : String → String → Certificate → Key → Step (Chain Key)
  unfolding file_exists load_leaf create_leaf
  load_or_create_leaf cert_path key_path ca ca_key d =
      if file_exists cert_path d && file_exists key_path d
      then elim (load_leaf cert_path key_path ca d) [
        | done chain ↦ (done chain, d)
        | failed e ↦ create_leaf cert_path key_path ca ca_key d
      ]
      else create_leaf cert_path key_path ca ca_key d

  -- Load
  unfoldable pub load : String → Step (Identity Key)
  unfolding load_or_create_ca load_or_create_leaf spki_fingerprint
  load dir = do
    require (os.mkdir_all dir) not_made
    pair ← load_or_create_ca (os.join dir "ca.crt") (os.join dir "ca.key")
    chain ← load_or_create_leaf (os.join dir "server.crt") (os.join dir "server.key") pair.0 pair.1
    give (record { ca = pair.0; server_chain = chain; fingerprint = spki_fingerprint x pair.0 })
