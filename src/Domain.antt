-- ===== src/Domain.antt =====
-- internal/domain/models.go: the payment and token state machines, and the rows that the
-- services exchange with the database. Money is an int64 of minor units, read as an integer;
-- times are nanoseconds since Go's zero time; a trust score (a float64 in the source) is counted in thousandths.
mod States
mod Models
pub mod Lifecycle
mod Tests
unfoldable pub use States.*
pub use Models.*
