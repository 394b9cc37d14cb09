-- ===== src/Reconciler/Convergence.antt =====
-- What a whole round leaves in the cluster.
mod Defs
mod Parts
mod Loops
mod Round
pub mod Containers
pub mod Limits
pub mod Mappings
pub use Defs.*
