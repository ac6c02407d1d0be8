-- ===== src/Tls.antt =====
-- internal/tlsid/tlsid.go: the certificates of a server, and the check of a pinned fingerprint.
pub mod Types
pub mod Verify
pub mod Files
pub mod Load
mod Kept
pub mod Sound
pub mod Stable
pub mod Rotation
