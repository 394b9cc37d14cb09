-- ===== src/Reconciler/Reports.antt =====
-- What a round reports to Hydra.
mod Defs
pub mod Namespaces
pub mod Domains
pub mod Containers
pub use Defs.*
pub mod Sync
pub mod Heartbeat
