-- ===== src/Server.antt =====
-- internal/server: the HTTP API. One module for each file of the handlers.
pub mod Types
pub mod Nonces
pub mod Auth
pub mod Replay
pub mod Push
pub mod Transport
pub mod Ttl
pub mod Devices
pub mod Statements
pub mod Bundles
pub mod Routes
pub mod Stored
pub mod History
pub mod Lockout
pub mod Senders
pub mod Privacy
pub mod Unauthorized
pub mod Authority
pub mod Sent
pub mod Forgetting
