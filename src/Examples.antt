-- ===== src/Examples.antt =====
-- Runs of the server of internal/server/ and of the wire format of internal/protocol/ at concrete
-- values.
pub mod Data
pub mod Files
pub mod Wire
pub mod Replay
pub mod Rooms
pub mod Console
pub mod Formats
pub mod Rcon
pub mod Programs
pub mod Mains
pub mod Delivery
pub mod Silence
pub mod Goroutines
