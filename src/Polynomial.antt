-- ===== src/Polynomial.antt =====
-- utils/polynomial.go: polynomials over the prime field, and the symmetric ones that a dealer shares.
mod Defs
mod Interpolate
pub mod Residues
pub mod Products
pub mod Weights
pub mod Division
pub mod Sums
pub mod Slices
pub mod Random
pub mod Lagrange
pub mod Reconstruction
pub mod Consistent
pub mod Secret
pub mod Dealing
unfoldable pub use Defs.*
unfoldable pub use Interpolate.*
