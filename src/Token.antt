-- ===== src/Token.antt =====
-- internal/token/service.go: the issue of offline tokens against a reserve, and their release when
-- they expire unspent.
mod Issue
mod Release
pub mod Laws
pub mod Reserve
pub mod Limit
pub mod Refund
mod Tests
unfoldable pub use Issue.*
unfoldable pub use Release.*
