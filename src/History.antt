-- ===== src/History.antt =====
-- internal/server/history.go: the samples of one client.
pub mod Sample
pub mod Ring
pub mod Lerp
pub mod Lookup
pub mod Bounds
pub mod Retention
pub mod Bracket
