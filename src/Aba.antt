-- ===== src/Aba.antt =====
-- services/aba.go: the rounds of binary agreement, and the COMPLETE votes that decide.
mod Types
mod Complete
mod Service
pub mod Rules
pub mod Decided
pub mod Adapters
pub mod Rounds
pub mod Runs
pub mod Blocking
pub mod Echo
pub mod Pending
pub mod Ends
pub mod Fuel
pub mod Coin
unfoldable pub use Types.*
unfoldable pub use Complete.*
unfoldable pub use Service.*
