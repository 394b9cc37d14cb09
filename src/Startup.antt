-- ===== src/Startup.antt =====
-- cmd/operator/main.go: from the configuration to a manager that can run.
mod Defs
pub mod Laws
pub mod Main
pub mod Reaches
unfoldable pub use Defs.*
