-- ===== src/Reconciler/Status.antt =====
-- internal/reconciler/status.go
mod Defs
pub mod Laws
unfoldable pub use Defs.*
