-- ===== src/Tls/Verify.antt =====
-- internal/tlsid/tlsid.go: SPKIFingerprint and verifyPinned.
use sund.Prelude.{Option, none, some, List, [], ◌∷◌, String, ◌==◌, Bytes, hex, if◌then◌else◌}
use sund.Tls.Types.{Certificate, X509}

-- verifyPinned's answers: each error wraps ErrIdentity.
pub data Pin : Type 0 where
  accepted no_certificate bad_certificate no_match not_verified : Pin

module _ {Key : Type 0} (x : X509 Key) where
  -- SPKIFingerprint
  unfoldable pub spki_fingerprint : Certificate → String
  spki_fingerprint cert = hex (x.sha256 cert.spki)

  -- The first loop: every certificate is parsed, or none is.
  unfoldable pub parse_all : List Bytes → Option (List Certificate)
  parse_all [] = some []
  parse_all (raw ∷ raws) = elim (x.parse_certificate raw) [
    | none ↦ none
    | some c ↦ elim (parse_all raws) [ none ↦ none | some cs ↦ some (c ∷ cs) ]
  ]

  -- The second loop.
  unfoldable pub first_pinned : String → List Certificate → Option Certificate
  first_pinned fingerprint [] = none
  first_pinned fingerprint (c ∷ cs) =
      if spki_fingerprint c == fingerprint then some c else first_pinned fingerprint cs

  -- From the parsed certificates on; the first one is the leaf.
  unfoldable pub verify_chain : List Certificate → String → Pin
  unfolding first_pinned
  verify_chain [] fingerprint = no_certificate
  verify_chain (leaf ∷ rest) fingerprint = elim (first_pinned fingerprint (leaf ∷ rest)) [
    | none ↦ no_match
    | some pinned ↦ if x.verify leaf (pinned ∷ []) rest then accepted else not_verified
  ]

  -- verifyPinned
  unfoldable pub verify_pinned : List Bytes → String → Pin
  unfolding verify_chain parse_all
  verify_pinned [] fingerprint = no_certificate
  verify_pinned (raw ∷ raws) fingerprint = elim (parse_all (raw ∷ raws)) [
    | none ↦ bad_certificate
    | some certs ↦ verify_chain certs fingerprint
  ]
