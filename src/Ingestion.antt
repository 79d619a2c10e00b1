-- ===== src/Ingestion.antt =====
-- The ingestion of provider catalogues.
pub mod Batches
pub mod Poll
pub mod Backfill
