-- ===== src/Risk.antt =====
-- internal/risk/risk.go: the risk engine. Engine has its rules, and Order compares assessments.
mod Engine
pub mod Order
mod Tests
unfoldable pub use Engine.*
