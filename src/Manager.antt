-- ===== src/Manager.antt =====
-- services/service.go: the loop that runs one service.
mod Defs
pub mod Order
unfoldable pub use Defs.*
