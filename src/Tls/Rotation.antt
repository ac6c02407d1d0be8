-- ===== src/Tls/Rotation.antt =====
-- internal/tlsid/tlsid.go: a Load after a rotation succeeds.
use sund.Prelude.{
  ℕ, ◌≡◌, inl, inr, subst, sym, ◌∙◌, true, ◌&&◌, some, [], ◌∷◌, String, Bytes, arith, Bool-cases,
  Option-cases,
}
use sund.Tls.Types.{
  Certificate, X509, Os, Draws, Identity, Chain, Template, complete, itself, signer,
}
use sund.Tls.Verify.{spki_fingerprint}
use sund.Tls.Files.{
  Disk, done, find_file, put_file, file_exists, read_file, read_pem, read_cert, read_key,
  write_file, write_cert_pem, write_key_pem,
}
use sund.Tls.Load.{
  load, load_or_create_ca, load_or_create_leaf, create_ca, create_leaf, load_leaf, read_pair,
  ca_template, leaf_template,
}
use sund.Tls.Kept.{find-put_same, Holds}
use sund.Tls.Stable.{
  IsApart, rotate, ca_crt, ca_key, load-parts, rotate-find, step_cases, load_or_create_ca-Holds,
}

-- The system lets every call through, and PEM blocks and keys are decoded as they were encoded. The
-- key in a certificate is the public key of the one it was made for when that key signs it itself,
-- and a leaf is made and parsed at the draws when the signing key is the CA's own.
pub record IsWorking {Key : Type 0} (x : X509 Key) (os : Os) (dir : String) (public : Key → Bytes)
    (w : Draws Key) : Type 0 where
  pub makes : os.mkdir_all dir ≡ true
  pub reads : (p : String) → os.readable p ≡ true
  pub writes : (p : String) → os.writing p ≡ complete
  pub decodes : (t : String) (b : Bytes) → x.pem_decode (x.pem_encode t b) ≡ some b
  pub marshals : (k : Key) → (der : Bytes) × (x.marshal_pkcs8 k ≡ some der)
  pub parses :
      (k : Key) (der : Bytes) → x.marshal_pkcs8 k ≡ some der → x.parse_pkcs8 der ≡ some (some k)
  pub self_signed :
      (n : ℕ) (t : Template) (k : Key) (der : Bytes) (ca : Certificate)
      → x.create_certificate n t itself k k ≡ some der
      → x.parse_certificate der ≡ some ca
      → ca.spki ≡ public k
  pub certifies :
      (ca_der : Bytes) (ca : Certificate) (k s : Key)
      → x.parse_certificate ca_der ≡ some ca
      → ca.spki ≡ public s
      → (der : Bytes) × (c : Certificate) × (x.create_certificate w.leaf_random
            (leaf_template w.leaf_serial w.leaf_from w.leaf_to)
            (signer ca)
            k
            s
          ≡ some der)
        × (x.parse_certificate der ≡ some c)

module _ {Key : Type 0} (x : X509 Key) (os : Os) (dir : String) (public : Key → Bytes)
    (w' : Draws Key) (ok : IsWorking x os dir public w') where
  -- The file holds the private key.
  abbrev HoldsKey : String → Key → Disk → Type 0
  HoldsKey path key d =
      (b : Bytes) × (der : Bytes) × (find_file path d ≡ some b)
      × (x.pem_decode b ≡ some der)
      × (x.parse_pkcs8 der ≡ some (some key))

  -- The two files of a disk that hold a CA and a key hold a pair.
  abbrev pub Pairs : Disk → Type 0
  Pairs d =
      (ca : Certificate) (key : Key)
      → read_cert x os (ca_crt x os dir) d ≡ done ca
      → read_key x os (ca_key x os dir) d ≡ done key
      → ca.spki ≡ public key

  read_key-HoldsKey :
      (path : String) (d : Disk) (key : Key) → read_key x os path d ≡ done key → HoldsKey path key d
  unfolding read_key read_pem read_file
  read_key-HoldsKey path d key e = elim (Option-cases (find_file path d)) [
    | inl p ↦ absurd (ground arith)
    | inr (b, p) ↦ elim (Option-cases (x.pem_decode b)) [
      | inl q ↦ absurd (ground arith)
      | inr (der, q) ↦ (b, der, p, q, ground arith)
    ]
  ]

  create_ca-HoldsKey :
      (w : Draws Key) (cert_path key_path : String) (ca : Certificate) (key : Key) (d d' : Disk)
      → create_ca x os w cert_path key_path d ≡ (done (ca, key), d')
      → HoldsKey key_path key d' × (ca.spki ≡ public key)
  unfolding create_ca write_cert_pem write_key_pem write_file
  create_ca-HoldsKey w cert_path key_path ca key d d' e = elim (Option-cases w.ca_key) [
    | inl e₁ ↦ absurd (ground arith)
    | inr (k, e₁) ↦
        let t = ca_template w.ca_serial w.ca_from w.ca_to in
        let (key_der, e₄) = ok.marshals k in
        elim (Option-cases (x.create_certificate w.ca_random t itself k k)) [
          | inl e₂ ↦ absurd (ground arith)
          | inr (der, e₂) ↦ elim (Option-cases (x.parse_certificate der)) [
            | inl e₃ ↦ absurd (ground (arith, ok.writes cert_path, ok.writes key_path))
            | inr (c, e₃) ↦
                let put = put_file cert_path (x.pem_encode "CERTIFICATE" der) d in
                let b = x.pem_encode "PRIVATE KEY" key_der in
                let same_key : key ≡ k = ground (arith, ok.writes cert_path, ok.writes key_path) in
                let same_ca : ca ≡ c = ground (arith, ok.writes cert_path, ok.writes key_path) in
                let same_disk : d' ≡ put_file key_path b put =
                  ground (arith, ok.writes cert_path, ok.writes key_path) in
                (
                  (
                    b,
                    key_der,
                    rw same_disk (find-put_same key_path b put),
                    ok.decodes "PRIVATE KEY" key_der,
                    rw same_key (ok.parses k key_der e₄),
                  ),
                  rw same_ca (rw same_key (ok.self_signed w.ca_random t k der c e₂ e₃)),
                )
          ]
        ]
  ]

  load_or_create_ca-HoldsKey :
      (w : Draws Key) (ca : Certificate) (key : Key) (d d' : Disk)
      → Pairs d
      → load_or_create_ca x os w (ca_crt x os dir) (ca_key x os dir) d ≡ (done (ca, key), d')
      → HoldsKey (ca_key x os dir) key d' × (ca.spki ≡ public key)
  unfolding load_or_create_ca read_pair
  load_or_create_ca-HoldsKey w ca key d d' pairs e =
      elim (Bool-cases (file_exists (ca_crt x os dir) d && file_exists (ca_key x os dir) d)) [
        | inl p ↦
            let found : read_key x os (ca_key x os dir) d ≡ done key = ground arith in
            (
              subst (HoldsKey (ca_key x os dir) key) {x = d} (ground arith)
                  (read_key-HoldsKey (ca_key x os dir) d key found),
              pairs ca key (ground arith) found,
            )
        | inr p ↦
            create_ca-HoldsKey w (ca_crt x os dir) (ca_key x os dir) ca key d d' (ground arith)
      ]

  -- What is on the disk is loaded.
  load_or_create_ca-loads :
      (ca : Certificate) (key : Key) (d : Disk)
      → Holds x os (ca_crt x os dir) ca d
      → HoldsKey (ca_key x os dir) key d
      → load_or_create_ca x os w' (ca_crt x os dir) (ca_key x os dir) d ≡ (done (ca, key), d)
  unfolding load_or_create_ca read_pair read_cert read_key read_pem read_file file_exists
  load_or_create_ca-loads ca key d (b, der, p, q, r) (b', der', p', q', r') =
      ground (arith, p, q, r, p', q', r', ok.reads (ca_crt x os dir), ok.reads (ca_key x os dir))

  create_leaf-makes :
      (k : Key) (ca_der : Bytes) (ca : Certificate) (key : Key) (cert_path key_path : String)
      (d : Disk)
      → w'.leaf_key ≡ some k
      → x.parse_certificate ca_der ≡ some ca
      → ca.spki ≡ public key
      → (chain : Chain Key) × (d' : Disk) × (create_leaf x os w' cert_path key_path ca key d
          ≡ (done chain, d'))
  unfolding create_leaf write_cert_pem write_key_pem write_file
  create_leaf-makes k ca_der ca key cert_path key_path d h parsed pair =
      let (der, c, e₂, e₃) = ok.certifies ca_der ca k key parsed pair in
      let (key_der, e₄) = ok.marshals k in
      (
        record { certificates = der ∷ ca.raw ∷ []; private_key = k; leaf = c },
        put_file key_path (x.pem_encode "PRIVATE KEY" key_der)
            (put_file cert_path (x.pem_encode "CERTIFICATE" der) d),
        ground (arith, h, e₂, e₃, e₄, ok.writes cert_path, ok.writes key_path),
      )

  -- A leaf is loaded or made.
  load_or_create_leaf-makes :
      (k : Key) (ca_der : Bytes) (ca : Certificate) (key : Key) (cert_path key_path : String)
      (d : Disk)
      → w'.leaf_key ≡ some k
      → x.parse_certificate ca_der ≡ some ca
      → ca.spki ≡ public key
      → (chain : Chain Key) × (d' : Disk) × (load_or_create_leaf x os w' cert_path key_path ca key d
          ≡ (done chain, d'))
  unfolding load_or_create_leaf
  load_or_create_leaf-makes k ca_der ca key cert_path key_path d h parsed pair =
      let (chain, d', made) =
        create_leaf-makes k ca_der ca key cert_path key_path d h parsed pair in
      elim (Bool-cases (file_exists cert_path d && file_exists key_path d)) [
        | inr e ↦ (chain, d', ground (arith, made))
        | inl e ↦ elim (step_cases (load_leaf x os w' cert_path key_path ca d, d)) [
          | inl (found, f) ↦ (found, d, ground arith)
          | inr (y, f) ↦ (chain, d', ground (arith, made))
        ]
      ]

  -- A rotation works and keeps the fingerprint: when a Load succeeds and the leaf's files are
  -- removed, another Load of that directory succeeds, when it draws a key for the leaf, and its
  -- identity has the same fingerprint. A CA and a key that the first Load found on the disk are a
  -- pair, the system lets every call through, PEM blocks and keys are decoded as they were encoded,
  -- a certificate that a key signs itself has its public key, a leaf signed with the CA's own key is
  -- made and parsed, and the four files have different paths.
  pub rotation-succeeds :
      (w : Draws Key) (k : Key) (id : Identity Key) (d d' : Disk)
      → IsApart os dir
      → Pairs d
      → w'.leaf_key ≡ some k
      → load x os w dir d ≡ (done id, d')
      → (id' : Identity Key) × (d'' : Disk) × (load x os w' dir (rotate os dir d')
          ≡ (done id', d''))
        × (id'.fingerprint ≡ id.fingerprint)
  unfolding load
  rotation-succeeds w k id d d' apart pairs h e =
      let (key, d₁, made, name, kept) = load-parts x os dir w id d d' e in
      let r = rotate os dir d' in
      let (held, exists) =
        load_or_create_ca-Holds x os dir w id.ca key d d₁ ok.decodes apart made in
      let (held_key, pair) = load_or_create_ca-HoldsKey w id.ca key d d₁ pairs made in
      let crt : find_file (ca_crt x os dir) r ≡ find_file (ca_crt x os dir) d₁ =
        rotate-find x os dir d' (ca_crt x os dir) apart.cert_leaf apart.cert_leaf_key
        ∙ kept (ca_crt x os dir) apart.cert_leaf apart.cert_leaf_key in
      let pem_key : find_file (ca_key x os dir) r ≡ find_file (ca_key x os dir) d₁ =
        rotate-find x os dir d' (ca_key x os dir) apart.key_leaf apart.key_leaf_key
        ∙ kept (ca_key x os dir) apart.key_leaf apart.key_leaf_key in
      let found =
        load_or_create_ca-loads id.ca key r (held.0, held.1, crt ∙ held.2, held.3, held.4)
          (held_key.0, held_key.1, pem_key ∙ held_key.2, held_key.3, held_key.4) in
      let (chain, d'', leaf) =
        load_or_create_leaf-makes k held.1 id.ca key (os.join dir "server.crt")
          (os.join dir "server.key") r h held.4 pair in
      let id' : Identity Key = record {
        ca = id.ca;
        server_chain = chain;
        fingerprint = spki_fingerprint x id.ca;
      } in
      let again : load x os w' dir r ≡ (done id', d'') = ground (arith, ok.makes, found, leaf) in
      (id', d'', again, sym name)
