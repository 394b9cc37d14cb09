-- ===== src/Hydra.antt =====
-- internal/hydraclient: the HTTP client of Hydra's operator API.
pub mod Client
