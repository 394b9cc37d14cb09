-- ===== src/TokenStore.antt =====
-- internal/tokenstore/tokenstore.go
mod Defs
pub mod RoundTrip
unfoldable pub use Defs.*
