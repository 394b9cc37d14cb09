-- ===== src/Reconciler/Ownership.antt =====
-- What a round of the sync loop may do to the cluster and say to Hydra, and that it does no more.
mod Defs
pub mod Cluster
pub mod Policies
pub mod Sync
pub mod Loops
pub use Defs.*
