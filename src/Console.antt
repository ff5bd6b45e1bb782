-- ===== src/Console.antt =====
-- The admin console of internal/server/rcon.go, and the responses as cmd/clirbrmp/main.go reads them.
pub mod Words
pub mod Scanner
pub mod Response
pub mod Framing
pub mod Messages
pub mod Listing
pub mod Command
pub mod Session
pub mod Total
pub mod Safe
pub mod Forged
pub mod Padded
pub mod Fuel
