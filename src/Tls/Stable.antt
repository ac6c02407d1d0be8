-- ===== src/Tls/Stable.antt =====
-- internal/tlsid/tlsid.go: the fingerprint over restarts and over a rotation of the leaf.
use sund.Prelude.{
  ◌≡◌, ◌≢◌, ◌⊎◌, inl, inr, refl, subst, sym, ap, ◌∙◌, true, ◌&&◌, some, String, Bytes, arith,
  Bool-cases,
}
use sund.Tls.Types.{Certificate, X509, Os, Draws, Identity}
use sund.Tls.Verify.{spki_fingerprint}
use sund.Tls.Files.{Disk, Answer, done, failed, Failure, find_file, remove_file, file_exists}
use sund.Tls.Load.{load, load_or_create_ca, load_or_create_leaf, read_pair}
use sund.Tls.Kept.{
  find-remove_other, Holds, read_cert-Holds, Holds-read_cert, load_or_create_leaf-Keeps,
  create_ca-Holds,
}

pub step_cases :
    {A : Type 0} (r : Answer A × Disk)
    → ((a : A) × (r ≡ (done a, r.1))) ⊎ ((f : Failure) × (r ≡ (failed f, r.1)))
step_cases (done a, d) = inl (a, refl)
step_cases (failed f, d) = inr (f, refl)

pub file_exists-find :
    (p : String) (d d' : Disk) → find_file p d ≡ find_file p d' → file_exists p d ≡ file_exists p d'
unfolding file_exists
file_exists-find p d d' e = ground (arith, e)

-- The four files of a directory have different paths.
pub record IsApart (os : Os) (dir : String) : Type 0 where
  pub keys : os.join dir "ca.crt" ≢ os.join dir "ca.key"
  pub cert_leaf : os.join dir "ca.crt" ≢ os.join dir "server.crt"
  pub cert_leaf_key : os.join dir "ca.crt" ≢ os.join dir "server.key"
  pub key_leaf : os.join dir "ca.key" ≢ os.join dir "server.crt"
  pub key_leaf_key : os.join dir "ca.key" ≢ os.join dir "server.key"

-- A rotation of the leaf: its two files are removed.
unfoldable pub rotate : Os → String → Disk → Disk
rotate os dir d = remove_file (os.join dir "server.key") (remove_file (os.join dir "server.crt") d)

module _ {Key : Type 0} (x : X509 Key) (os : Os) (dir : String) where
  abbrev pub ca_crt : String
  ca_crt = os.join dir "ca.crt"

  abbrev pub ca_key : String
  ca_key = os.join dir "ca.key"

  pub load_or_create_ca-Holds :
      (w : Draws Key) (ca : Certificate) (key : Key) (d d' : Disk)
      → ((t : String) (b : Bytes) → x.pem_decode (x.pem_encode t b) ≡ some b)
      → IsApart os dir
      → load_or_create_ca x os w ca_crt ca_key d ≡ (done (ca, key), d')
      → Holds x os ca_crt ca d' × (file_exists ca_key d' ≡ true)
  unfolding load_or_create_ca read_pair
  load_or_create_ca-Holds w ca key d d' pem apart e =
      elim (Bool-cases (file_exists ca_crt d && file_exists ca_key d)) [
        | inl p ↦
            subst (λ d. Holds x os ca_crt ca d × (file_exists ca_key d ≡ true)) {x = d}
              (ground arith) (read_cert-Holds x os ca_crt ca d (ground arith), ground arith)
        | inr p ↦ create_ca-Holds x os w ca_crt ca_key ca key d d' pem apart.keys (ground arith)
      ]

  -- A Load that succeeds: the CA first, then the leaf.
  pub load-parts :
      (w : Draws Key) (id : Identity Key) (d d' : Disk)
      → load x os w dir d ≡ (done id, d')
      → (key : Key) × (d₁ : Disk) × (load_or_create_ca x os w ca_crt ca_key d
          ≡ (done (id.ca, key), d₁))
        × (id.fingerprint ≡ spki_fingerprint x id.ca)
        × ((p : String)
            → p ≢ os.join dir "server.crt"
            → p ≢ os.join dir "server.key"
            → find_file p d' ≡ find_file p d₁)
  unfolding load
  load-parts w id d d' e = elim (step_cases (load_or_create_ca x os w ca_crt ca_key d)) [
    | inr (f, p) ↦ absurd (ground arith)
    | inl ((ca, key), p) ↦ elim (Bool-cases (os.mkdir_all dir)) [
      | inr n ↦ absurd (ground arith)
      | inl n ↦
          let d₁ = (load_or_create_ca x os w ca_crt ca_key d).1 in
          let leaf =
            load_or_create_leaf x os w (os.join dir "server.crt") (os.join dir "server.key") ca
              key in
          let same_ca : id.ca ≡ ca = ground arith in
          (
            key,
            d₁,
            ground (arith, p, same_ca),
            ground (arith, same_ca),
            λ file h k.
                ap (find_file file) (ground arith)
                ∙ load_or_create_leaf-Keeps x os w file (os.join dir "server.crt")
                    (os.join dir "server.key") ca key h k d₁,
          )
    ]
  ]

  -- A Load that finds the CA on the disk answers with it.
  load_or_create_ca-found :
      (w : Draws Key) (ca ca' : Certificate) (key : Key) (d d' : Disk)
      → Holds x os ca_crt ca d
      → file_exists ca_key d ≡ true
      → load_or_create_ca x os w ca_crt ca_key d ≡ (done (ca', key), d')
      → ca' ≡ ca
  unfolding load_or_create_ca read_pair file_exists
  load_or_create_ca-found w ca ca' key d d' h k e =
      Holds-read_cert x os ca_crt ca ca' d h (ground (arith, h.2))

  pub rotate-find :
      (d : Disk) (p : String)
      → p ≢ os.join dir "server.crt"
      → p ≢ os.join dir "server.key"
      → find_file p (rotate os dir d) ≡ find_file p d
  unfolding rotate
  rotate-find d p h k =
      find-remove_other p (os.join dir "server.key") _ k
      ∙ find-remove_other p (os.join dir "server.crt") d h

  -- The fingerprint outlives a rotation: when a Load succeeds, the leaf's files are removed, and
  -- another Load of that directory succeeds, with whatever keys, certificates and clock, the two
  -- identities have the same fingerprint. A PEM block is decoded as it was encoded, and the four
  -- files have different paths.
  pub load-rotate :
      (w w' : Draws Key) (id id' : Identity Key) (d d' d'' : Disk)
      → ((t : String) (b : Bytes) → x.pem_decode (x.pem_encode t b) ≡ some b)
      → IsApart os dir
      → load x os w dir d ≡ (done id, d')
      → load x os w' dir (rotate os dir d') ≡ (done id', d'')
      → id'.fingerprint ≡ id.fingerprint
  unfolding rotate
  load-rotate w w' id id' d d' d'' pem apart e e' =
      let (key, d₁, made, name, kept) = load-parts w id d d' e in
      let (key', d₂, found, name', kept') = load-parts w' id' (rotate os dir d') d'' e' in
      let (held, exists) = load_or_create_ca-Holds w id.ca key d d₁ pem apart made in
      let crt : find_file ca_crt (rotate os dir d') ≡ find_file ca_crt d₁ =
        rotate-find d' ca_crt apart.cert_leaf apart.cert_leaf_key
        ∙ kept ca_crt apart.cert_leaf apart.cert_leaf_key in
      let pem_key : find_file ca_key (rotate os dir d') ≡ find_file ca_key d₁ =
        rotate-find d' ca_key apart.key_leaf apart.key_leaf_key
        ∙ kept ca_key apart.key_leaf apart.key_leaf_key in
      let same =
        load_or_create_ca-found w' id.ca id'.ca key' (rotate os dir d') d₂
          (held.0, held.1, crt ∙ held.2, held.3, held.4)
          (file_exists-find ca_key (rotate os dir d') d₁ pem_key ∙ exists) found in
      name' ∙ ap (spki_fingerprint x) same ∙ sym name
