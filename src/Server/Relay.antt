-- ===== src/Server/Relay.antt =====
-- What internal/server/server.go sends to whom: chat lines, snapshots, kicks and ban notices.
pub mod ChatLines
pub mod Snapshots
pub mod Wire
pub mod Accepted
pub mod Sending
pub mod Delivery
pub mod EntityList
