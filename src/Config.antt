-- ===== src/Config.antt =====
-- internal/config/config.go
mod Defs
pub mod Validity
pub mod Load
pub mod Sources
unfoldable pub use Defs.*
