-- ===== src/Hydra/Client.antt =====
-- internal/hydraclient/client.go
mod Defs
pub mod Laws
unfoldable pub use Defs.*
