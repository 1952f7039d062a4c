-- ===== src/Repository.antt =====
-- internal/repository/repository.go: one function for each method, by table. `Conn` is the
-- argument `tx`: `in_tx` is a transaction, `direct` is nil (the pool's own connection).
mod Devices
mod Tokens
mod Intents
mod Balances
mod Events
mod Sagas
mod Outbox
mod DeadLetters
mod Projections
mod Audits
pub mod Laws
unfoldable pub use Devices.*
unfoldable pub use Tokens.*
unfoldable pub use Intents.*
unfoldable pub use Balances.*
unfoldable pub use Events.*
unfoldable pub use Sagas.*
unfoldable pub use Outbox.*
unfoldable pub use DeadLetters.*
unfoldable pub use Projections.*
unfoldable pub use Audits.*
