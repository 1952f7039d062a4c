-- ===== src/Database.antt =====
-- The database as the code sees it: tables with their constraints
-- (internal/db/migrations), the results of statements, and a monad of statements and
-- transactions (`WithTx` of internal/repository/repository.go).
mod Table
mod Schema
mod Monad
pub mod Laws
pub mod Rows
mod Tests
unfoldable pub use Table.*
unfoldable pub use Schema.*
unfoldable pub use Monad.*
