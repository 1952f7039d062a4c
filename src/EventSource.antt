-- ===== src/EventSource.antt =====
-- internal/eventsource/eventsource.go: the versioned events of a payment, a snapshot of it at every
-- n-th version (Record), and the payment that its events replay to (Replay). Agreement compares a
-- replay from a snapshot with one from the first event, Parties says what a replay without an event
-- IntentCreated returns.
mod Record
mod Replay
pub mod Agreement
pub mod Parties
mod Tests
unfoldable pub use Record.*
unfoldable pub use Replay.*
