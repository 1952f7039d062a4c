-- ===== src/Relay.antt =====
-- internal/relay/service.go: a relay node. Service has its calls, Duplicates what its cache drops,
-- and Forward how often an envelope is forwarded.
mod Service
pub mod Duplicates
pub mod Forward
mod Tests
unfoldable pub use Service.*
