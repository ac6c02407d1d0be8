-- ===== src/Tls/Kept.antt =====
-- internal/tlsid/tlsid.go: what the steps of a Load leave of a file.
use sund.Prelude.{
  ◌≡◌, ◌≢◌, inl, inr, refl, true, ◌&&◌, some, [], ◌∷◌, String, ◌==◌, eq_iff, eq_refl, Bytes, arith,
  Option-cases, Bool-cases,
}
use sund.Server.Auth.{take}
use sund.Tls.Types.{Certificate, X509, Os, Draws, Chain, itself, signer, refused, cut_off, complete}
use sund.Tls.Files.{
  Disk, Answer, done, failed, Step, not_written, find_file, put_file, remove_file, file_exists,
  read_file, write_file, read_pem, read_cert, write_cert_pem, write_key_pem,
}
use sund.Tls.Load.{
  ca_template, leaf_template, load_or_create_leaf, create_ca, create_leaf, load_leaf,
}

pub find-put_same : (p : String) (b : Bytes) (d : Disk) → find_file p (put_file p b d) ≡ some b
unfolding find_file put_file
find-put_same p b [] = ground (arith, eq_refl p)
find-put_same p b (f ∷ d) = elim (Bool-cases (f.0 == p)) [
  | inl e ↦ ground (arith, eq_refl p)
  | inr e ↦ ground (arith, find-put_same p b d)
]

find-put_other :
    (p q : String) (b : Bytes) (d : Disk) → p ≢ q → find_file p (put_file q b d) ≡ find_file p d
unfolding find_file put_file
find-put_other p q b [] h = ground (arith, eq_iff q p)
find-put_other p q b (f ∷ d) h =
    ground (arith, eq_iff q p, eq_iff f.0 q, eq_iff f.0 p, find-put_other p q b d h)

pub find-remove_other :
    (p q : String) (d : Disk) → p ≢ q → find_file p (remove_file q d) ≡ find_file p d
unfolding find_file remove_file
find-remove_other p q [] h = refl
find-remove_other p q (f ∷ d) h =
    ground (arith, eq_iff f.0 q, eq_iff f.0 p, find-remove_other p q d h)

-- The step leaves the file at the path as it is.
abbrev pub Keeps : {A : Type 0} → String → Step A → Type 0
Keeps p m = (d : Disk) → find_file p (m d).1 ≡ find_file p d

module _ (os : Os) (p q : String) (b : Bytes) where
  write_file-Keeps : p ≢ q → Keeps p (write_file os q b)
  unfolding write_file
  write_file-Keeps h d =
      elim (os.writing q)
        as (λ way.
          find_file p
            (elim way as (λ _. Answer (Unit {0}) × Disk) [
              | refused ↦ (failed not_written, d)
              | cut_off kept ↦ (failed not_written, put_file q (take kept b) d)
              | complete ↦ (done tt, put_file q b d)
            ]).1
          ≡ find_file p d) [
            | refused ↦ refl
            | cut_off kept ↦ find-put_other p q (take kept b) d h
            | complete ↦ find-put_other p q b d h
          ]

module _ {Key : Type 0} (x : X509 Key) (os : Os) where
  -- The file holds the certificate.
  abbrev pub Holds : String → Certificate → Disk → Type 0
  Holds path ca d =
      (b : Bytes) × (der : Bytes) × (find_file path d ≡ some b)
      × (x.pem_decode b ≡ some der)
      × (x.parse_certificate der ≡ some ca)

  pub read_cert-Holds :
      (path : String) (ca : Certificate) (d : Disk)
      → read_cert x os path d ≡ done ca
      → Holds path ca d
  unfolding read_cert read_pem read_file
  read_cert-Holds path ca d e = elim (Option-cases (find_file path d)) [
    | inl p ↦ absurd (ground arith)
    | inr (b, p) ↦ elim (Option-cases (x.pem_decode b)) [
      | inl q ↦ absurd (ground arith)
      | inr (der, q) ↦ (b, der, p, q, ground arith)
    ]
  ]

  pub Holds-read_cert :
      (path : String) (ca ca' : Certificate) (d : Disk)
      → Holds path ca d
      → read_cert x os path d ≡ done ca'
      → ca' ≡ ca
  unfolding read_cert read_pem read_file
  Holds-read_cert path ca ca' d (b, der, p, q, r) e = ground arith

  module _ (w : Draws Key) where
    create_leaf-Keeps :
        (p cert_path key_path : String) (ca : Certificate) (key : Key)
        → p ≢ cert_path
        → p ≢ key_path
        → Keeps p (create_leaf x os w cert_path key_path ca key)
    unfolding create_leaf write_cert_pem write_key_pem
    create_leaf-Keeps p cert_path key_path ca key h k d = elim (Option-cases w.leaf_key) [
      | inl e ↦ ground arith
      | inr (leaf_key, e) ↦
          elim (Option-cases (
            x.create_certificate w.leaf_random (leaf_template w.leaf_serial w.leaf_from w.leaf_to)
              (signer ca) leaf_key key)) [
                | inl f ↦ ground arith
                | inr (der, f) ↦
                    let b = x.pem_encode "CERTIFICATE" der in
                    let first = write_file-Keeps os p cert_path b h d in
                    elim (Option-cases (x.marshal_pkcs8 leaf_key)) [
                      | inl g ↦ ground (arith, first)
                      | inr (key_der, g) ↦
                          let c = x.pem_encode "PRIVATE KEY" key_der in
                          let put = (write_file os cert_path b d).1 in
                          ground (arith, first, write_file-Keeps os p key_path c k put)
                    ]
              ]
    ]

    pub load_or_create_leaf-Keeps :
        (p cert_path key_path : String) (ca : Certificate) (key : Key)
        → p ≢ cert_path
        → p ≢ key_path
        → Keeps p (load_or_create_leaf x os w cert_path key_path ca key)
    unfolding load_or_create_leaf
    load_or_create_leaf-Keeps p cert_path key_path ca key h k d =
        elim (Bool-cases (file_exists cert_path d && file_exists key_path d)) [
          | inr e ↦ rw e (create_leaf-Keeps p cert_path key_path ca key h k d)
          | inl e ↦
              rw e
                (elim (load_leaf x os w cert_path key_path ca d)
                  as (λ o.
                    find_file p
                      (elim o as (λ _. Answer (Chain Key) × Disk) [
                        | done chain ↦ (done chain, d)
                        | failed e ↦ create_leaf x os w cert_path key_path ca key d
                      ]).1
                    ≡ find_file p d) [
                      | done chain ↦ refl
                      | failed f ↦ create_leaf-Keeps p cert_path key_path ca key h k d
                    ])
        ]

    -- What a new CA leaves behind.
    pub create_ca-Holds :
        (cert_path key_path : String) (ca : Certificate) (key : Key) (d d' : Disk)
        → ((t : String) (b : Bytes) → x.pem_decode (x.pem_encode t b) ≡ some b)
        → cert_path ≢ key_path
        → create_ca x os w cert_path key_path d ≡ (done (ca, key), d')
        → Holds cert_path ca d' × (file_exists key_path d' ≡ true)
    unfolding create_ca write_cert_pem write_key_pem file_exists ca_template write_file
    create_ca-Holds cert_path key_path ca key d d' pem apart e = elim (Option-cases w.ca_key) [
      | inl e₁ ↦ absurd (ground arith)
      | inr (k, e₁) ↦
          elim (Option-cases (
            x.create_certificate w.ca_random (ca_template w.ca_serial w.ca_from w.ca_to) itself k
              k)) [
                | inl e₂ ↦ absurd (ground arith)
                | inr (der, e₂) ↦ elim (Option-cases (x.marshal_pkcs8 k)) [
                  | inl e₃ ↦ absurd (ground arith)
                  | inr (key_der, e₃) ↦
                      let b = x.pem_encode "CERTIFICATE" der in
                      let c = x.pem_encode "PRIVATE KEY" key_der in
                      let put = put_file cert_path b d in
                      let first = find-put_other cert_path key_path c put apart in
                      (
                        (
                          b,
                          der,
                          ground (arith, first, find-put_same cert_path b d),
                          pem _ der,
                          ground arith,
                        ),
                        ground (arith, find-put_same key_path c put),
                      )
                ]
              ]
    ]
