-- ===== src/Tls/Sound.antt =====
-- internal/tlsid/tlsid.go: which chains verifyPinned accepts.
use mathlib.Core.Option.{some-injective}
use sund.Prelude.{
  ◌≡◌, ◌≢◌, ◌↔◌, inl, inr, refl, subst, ap, ◌∙◌, true, some, List, [], ◌∷◌, ◌++◌, String, eq_iff,
  Bytes, All, arith, Option-cases, text_cases,
}
use sund.Tls.Types.{Certificate, X509}
use sund.Tls.Verify.{
  accepted, spki_fingerprint, parse_all, first_pinned, verify_chain, verify_pinned,
}

module _ {Key : Type 0} (x : X509 Key) where
  -- The certificate is the first of the list with the fingerprint.
  pub IsFirst : String → Certificate → List Certificate → Type 0
  IsFirst fingerprint pinned certs =
      (before : List Certificate) × (after : List Certificate) × (certs ≡ before ++ pinned ∷ after)
      × All (λ c. spki_fingerprint x c ≢ fingerprint) before
      × (spki_fingerprint x pinned ≡ fingerprint)

  -- Each raw certificate is parsed to the certificate at its place.
  pub Parses : List Bytes → List Certificate → Type 0
  Parses [] [] = Unit
  Parses [] (c ∷ certs) = ⊥
  Parses (raw ∷ raws) [] = ⊥
  Parses (raw ∷ raws) (c ∷ certs) = (x.parse_certificate raw ≡ some c) × Parses raws certs

  -- The raw certificates are those of a leaf and others, and the leaf is verified by the first one
  -- with the fingerprint as the only root.
  pub IsTrusted : List Bytes → String → Type 0
  unfolding IsFirst Parses
  IsTrusted raws fingerprint =
      (leaf : Certificate) × (rest : List Certificate) × (pinned : Certificate) × Parses raws
        (leaf ∷ rest)
      × IsFirst fingerprint pinned (leaf ∷ rest)
      × (x.verify leaf (pinned ∷ []) rest ≡ true)

  parse_all-Parses :
      (raws : List Bytes) (certs : List Certificate)
      → parse_all x raws ≡ some certs
      → Parses raws certs
  unfolding parse_all Parses
  parse_all-Parses [] [] e = tt
  parse_all-Parses [] (c ∷ certs) e = absurd (cc e)
  parse_all-Parses (raw ∷ raws) certs e = elim (Option-cases (x.parse_certificate raw)) [
    | inl p ↦ absurd (ground arith)
    | inr (c, p) ↦ elim (Option-cases (parse_all x raws)) [
      | inl q ↦ absurd (ground arith)
      | inr (cs, q) ↦
          subst (Parses (raw ∷ raws)) (some-injective (c ∷ cs) certs (ground arith))
            (p, parse_all-Parses raws cs q)
    ]
  ]

  Parses-parse_all :
      (raws : List Bytes) (certs : List Certificate)
      → Parses raws certs
      → parse_all x raws ≡ some certs
  unfolding parse_all Parses
  Parses-parse_all [] [] h = refl
  Parses-parse_all [] (c ∷ certs) h = absurd h
  Parses-parse_all (raw ∷ raws) [] h = absurd h
  Parses-parse_all (raw ∷ raws) (c ∷ certs) h = ground (arith, h.0, Parses-parse_all raws certs h.1)

  first_pinned-IsFirst :
      (fingerprint : String) (certs : List Certificate) (pinned : Certificate)
      → first_pinned x fingerprint certs ≡ some pinned
      → IsFirst fingerprint pinned certs
  unfolding first_pinned IsFirst
  first_pinned-IsFirst fingerprint [] pinned e = absurd (cc e)
  first_pinned-IsFirst fingerprint (c ∷ certs) pinned e =
      elim (text_cases (spki_fingerprint x c) fingerprint) [
        | inl (p, q) ↦
            ([], certs, ap (λ d. d ∷ certs) (some-injective _ _ (ground arith)), tt, ground arith)
        | inr (p, q) ↦
            let (before, after, split, other, same) =
              first_pinned-IsFirst fingerprint certs pinned (ground arith) in
            (c ∷ before, after, ap (λ cs. c ∷ cs) split, (p, other), same)
      ]

  IsFirst-first_pinned :
      (fingerprint : String) (before after : List Certificate) (pinned : Certificate)
      → All (λ c. spki_fingerprint x c ≢ fingerprint) before
      → spki_fingerprint x pinned ≡ fingerprint
      → first_pinned x fingerprint (before ++ pinned ∷ after) ≡ some pinned
  unfolding first_pinned
  IsFirst-first_pinned fingerprint [] after pinned a e =
      ground (arith, eq_iff (spki_fingerprint x pinned) fingerprint)
  IsFirst-first_pinned fingerprint (c ∷ before) after pinned a e = ground (
    arith,
    eq_iff (spki_fingerprint x c) fingerprint,
    IsFirst-first_pinned fingerprint before after pinned a.1 e,
  )

  -- A chain is accepted just when it is trusted: its certificates are parsed, and its leaf is
  -- verified with, as the only root, the first of them that has the pinned fingerprint.
  pub verify_pinned-IsTrusted :
      (raws : List Bytes) (fingerprint : String)
      → (verify_pinned x raws fingerprint ≡ accepted) ↔ IsTrusted raws fingerprint
  unfolding verify_pinned verify_chain IsTrusted
  verify_pinned-IsTrusted raws fingerprint = (to raws, from raws)
    where
      to :
          (raws : List Bytes)
          → verify_pinned x raws fingerprint ≡ accepted
          → IsTrusted raws fingerprint
      to [] e = absurd (cc e)
      to (raw ∷ raws) e = elim (Option-cases (parse_all x (raw ∷ raws))) [
        | inl p ↦ absurd (ground arith)
        | inr ([], p) ↦ absurd (ground arith)
        | inr (leaf ∷ rest, p) ↦ elim (Option-cases (first_pinned x fingerprint (leaf ∷ rest))) [
          | inl q ↦ absurd (ground arith)
          | inr (pinned, q) ↦ (
            leaf,
            rest,
            pinned,
            parse_all-Parses (raw ∷ raws) (leaf ∷ rest) p,
            first_pinned-IsFirst fingerprint (leaf ∷ rest) pinned q,
            ground arith,
          )
        ]
      ]

      from :
          (raws : List Bytes)
          → IsTrusted raws fingerprint
          → verify_pinned x raws fingerprint ≡ accepted
      from [] (leaf, rest, pinned, p, q, v) = absurd p
      from (raw ∷ raws) (leaf, rest, pinned, p, (before, after, split, other, same), v) =
          let q : first_pinned x fingerprint (leaf ∷ rest) ≡ some pinned =
            ap (first_pinned x fingerprint) split
            ∙ IsFirst-first_pinned fingerprint before after pinned other same in
          ground (arith, Parses-parse_all (raw ∷ raws) (leaf ∷ rest) p, q, v)
