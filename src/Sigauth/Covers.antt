-- ===== src/Sigauth/Covers.antt =====
-- internal/sigauth/sigauth.go: what a signature over the signing string covers.
use sund.Prelude.{◌<◌, ◌≡◌, String, Bytes, All}
use sund.Sigauth.{signing_string}
use sund.Sigauth.Hex.{Avoids, cut_line, hex_injective}

-- A text without a line feed.
abbrev pub OneLine : String → Type 0
OneLine s = Avoids 10 s

-- Two requests with the same signing string have the same method, path, timestamp and nonce, and
-- bodies of the same hash, if none of the four texts holds a line feed and a hash is a list of
-- bytes.
pub signing_string-covers :
    (sha256 : Bytes → Bytes) (method method' path path' timestamp timestamp' nonce nonce' : String)
    (body body' : Bytes)
    → ((b : Bytes) → All (λ n. n < 256) (sha256 b))
    → OneLine method × OneLine path × OneLine timestamp × OneLine nonce
    → OneLine method' × OneLine path' × OneLine timestamp' × OneLine nonce'
    → signing_string sha256 method path timestamp nonce body
      ≡ signing_string sha256 method' path' timestamp' nonce' body'
    → (method ≡ method')
      × (path ≡ path')
      × (timestamp ≡ timestamp')
      × (nonce ≡ nonce')
      × (sha256 body ≡ sha256 body')
unfolding signing_string
signing_string-covers sha256 method method' path path' timestamp timestamp' nonce nonce' body body'
      bytes h k e =
    let (m, e₁) = cut_line method method' _ _ h.0 k.0 e in
    let (p, e₂) = cut_line path path' _ _ h.1 k.1 e₁ in
    let (t, e₃) = cut_line timestamp timestamp' _ _ h.2 k.2 e₂ in
    let (n, e₄) = cut_line nonce nonce' _ _ h.3 k.3 e₃ in
    (m, p, t, n, hex_injective (sha256 body) (sha256 body') (bytes body) (bytes body') e₄)
