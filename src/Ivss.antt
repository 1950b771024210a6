-- ===== src/Ivss.antt =====
-- services/ivss.go: verifiable secret sharing, and the reconstruction of the secret.
mod Types
mod Sets
mod Messages
mod Direct
mod Service
pub mod Candidates
pub mod Maximal
pub mod Repeated
pub mod Faults
pub mod Agreeing
pub mod Recovery
pub mod Unanimous
pub mod Entries
pub mod RevealSteps
pub mod Reveals
pub mod Readies
pub mod Honest
pub mod Verified
pub mod Steps
pub mod Sharing
pub mod Invariant
unfoldable pub use Types.*
unfoldable pub use Sets.*
unfoldable pub use Messages.*
unfoldable pub use Direct.*
unfoldable pub use Service.*
