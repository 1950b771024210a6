-- ===== src/Vote.antt =====
-- services/vote.go: the three phases of one voting round.
mod Types
mod Progress
mod Service
pub mod Decision
pub mod Majority
pub mod Moves
pub mod Runs
pub mod Ballots
pub mod Rounds
pub mod Agreement
pub mod Revotes
pub mod Echo
unfoldable pub use Types.*
unfoldable pub use Progress.*
unfoldable pub use Service.*
