-- ===== src/Earthquake.antt =====
-- internal/domain/earthquake: observations, their quality classes and the correlation of catalogues.
pub mod Solution
pub mod Event
pub mod Correlation
