-- ===== src/Realtime.antt =====
-- The public stream of changes.
pub mod Hub
