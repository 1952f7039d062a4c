-- ===== src/Settlement.antt =====
-- internal/settlement/service.go: the settlement of an offline payment. `Steps` holds the four
-- saga steps with their compensations, `Service` the checks before them and what follows; the
-- other modules prove what they do.
mod Platform
mod Steps
mod Service
pub mod Envelope
pub mod Reserve
pub mod Effects
pub mod Checks
mod Reads
pub mod Outcome
pub mod Publish
pub mod Settled
pub mod Exact
pub mod Money
pub mod Entries
pub mod Guarantees
pub mod Rollback
mod Lab
mod Tests
unfoldable pub use Platform.*
unfoldable pub use Steps.*
unfoldable pub use Service.*
