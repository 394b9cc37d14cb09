-- ===== src/Reconciler/Container.antt =====
-- internal/reconciler/container.go
mod Defs
pub mod Settles
pub mod Progress
pub mod Updates
pub mod Restart
unfoldable pub use Defs.*
