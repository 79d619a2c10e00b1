-- ===== src/Repository.antt =====
-- internal/repository/postgres/repository.go: the core's tables and what an observation does to them.
pub mod Tables
pub mod Matching
pub mod Changes
pub mod Statements
pub mod Known
pub mod Constraints
pub mod Events
pub mod Notices
pub mod Selection
pub mod Deliveries
pub mod Refreshing
pub mod Batch
pub mod Runs
pub mod Consistency
