-- ===== src/Protocol.antt =====
-- internal/protocol/protocol.go: the wire format.
pub mod Types
pub mod Writer
pub mod Reader
pub mod Encode
pub mod Decode
pub mod Layout
pub mod Reads
pub mod FixedText
pub mod Takes
pub mod Truncated
pub mod Sizes
pub mod Header
pub mod Ranges
pub mod RoundTrip
