-- ===== src/Client.antt =====
-- client: the Go client of the HTTP API.
pub mod Types
pub mod Address
pub mod Conn
pub mod Device
pub mod Queue
pub mod Signed
