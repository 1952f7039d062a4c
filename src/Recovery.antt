-- ===== src/Recovery.antt =====
-- internal/recovery/recovery.go and models.go: the classifier, the policy and the states of a
-- recovery operation. A confidence (a float64 between 0 and 1 in the source) is a percentage.
mod Decisions
mod Recorder
mod Runner
pub mod Laws
pub mod Attempts
pub mod Tries
mod Tests
unfoldable pub use Decisions.*
unfoldable pub use Recorder.*
unfoldable pub use Runner.*
