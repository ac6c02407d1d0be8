-- ===== src/Sigauth.antt =====
-- internal/sigauth/sigauth.go: the text that a client signs and the server verifies.
mod Hex
pub mod Covers
use sund.Prelude.{String, ◌<>◌, Bytes, hex}

-- SigningString: METHOD \n PATH \n TIMESTAMP \n NONCE \n hex(sha256(BODY)). `sha256` is the hash of
-- crypto/sha256; the bytes of the result are those of the text.
unfoldable pub signing_string : (Bytes → Bytes) → String → String → String → String → Bytes → String
signing_string sha256 method path timestamp nonce body =
    method
    <> ("\n" <> (path <> ("\n" <> (timestamp <> ("\n" <> (nonce <> ("\n" <> hex (sha256 body))))))))
