-- ===== src/ACast.antt =====
-- services/acast.go: Bracha's reliable broadcast. `Defs` has the service as the source writes it.
mod Defs
pub mod System
mod Votes
pub mod Local
pub mod Origins
pub mod LocalSteps
mod Thresholds
mod Quorums
pub mod Agreement
pub mod Totality
pub mod Validity
pub mod Network
pub mod Projection
unfoldable pub use Defs.*
