-- ===== src/Api.antt =====
-- The public HTTP API.
pub mod Limiter
