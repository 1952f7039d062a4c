-- ===== src/Projection.antt =====
-- internal/projection/worker.go: the read model of payments. Worker has the handlers, Deliver what
-- a delivery does, and Order what depends on the order of two of them.
mod Worker
pub mod Deliver
pub mod Order
mod Tests
unfoldable pub use Worker.*
