-- ===== src/Certification.antt =====
-- services/certification.go: the set of faulty pairs and the list of core invocations. The mutex
-- makes each method one atomic step, and has no other place in the model.
mod Defs
pub mod Pairs
unfoldable pub use Defs.*
