-- ===== src/Cluster.antt =====
-- internal/cluster/cluster.go: the replicated log of the settlement nodes. Nodes has the state and
-- the calls, Search the election's loop, System the steps that the calls make, and Log and Leader
-- what every sequence of steps keeps.
mod Nodes
mod Search
mod System
mod Change
mod Propose
mod Failover
pub mod Log
pub mod Leader
pub mod Election
mod Tests
unfoldable pub use Nodes.*
