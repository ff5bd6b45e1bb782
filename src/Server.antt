-- ===== src/Server.antt =====
-- internal/server: the relay.
pub mod Types
pub mod Bans
pub mod Session
pub mod Chat
pub mod Handle
pub mod Tick
pub mod Admin
pub mod Sessions
pub mod Invariant
pub mod Start
pub mod Run
pub mod Absence
pub mod KickWindow
pub mod Relay
pub mod Sequence
pub mod PingPong
pub mod BanEffect
pub mod FindClient
pub mod Race
pub mod Values
pub mod Isolation
pub mod Stats
pub mod Interleave
