-- ===== src/Eventstream.antt =====
-- The contracts of the event stream.
pub mod Messages
pub mod Snapshots
pub mod Contracts
