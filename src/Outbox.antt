-- ===== src/Outbox.antt =====
-- internal/outbox/outbox.go: the workers that publish the outbox. Worker has their calls, Attempt
-- what becomes of one event, Retry how often it is tried, Stuck the rows that no worker takes, and
-- Replay how a dead letter comes back.
mod Worker
pub mod Attempt
pub mod Retry
pub mod Waiting
pub mod Others
pub mod Stuck
pub mod Replay
mod Tests
unfoldable pub use Worker.*
