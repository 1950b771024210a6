-- ===== src/Network.antt =====
-- services/network.go: the registry of channels, and the goroutines that write to them.
mod Defs
pub mod Arrivals
pub mod Nodes
unfoldable pub use Defs.*
