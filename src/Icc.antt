-- ===== src/Icc.antt =====
-- services/icc.go: the common coin, over verifiable secret sharing and reliable broadcast.
mod Types
mod Coin
mod Progress
mod Service
pub mod Phases
pub mod Sharings
pub mod Dealing
pub mod Decision
pub mod Values
pub mod Steps
pub mod Lifecycle
pub mod Handlers
pub mod Invariant
pub mod Locking
unfoldable pub use Types.*
unfoldable pub use Coin.*
unfoldable pub use Progress.*
unfoldable pub use Service.*
