-- ===== src/Simulation.antt =====
-- main.go and gen.go: the simulation, and the generator of its input.
pub mod Text
mod Generator
mod Setup
pub mod Resilience
unfoldable pub use Generator.*
unfoldable pub use Setup.*
