-- ===== src/Tests.antt =====
-- The theorems at concrete inputs, and runs of the modelled code.
pub mod Samples
mod EarthquakeTests
mod NotificationTests
mod DeliveryTests
mod EventstreamTests
mod IngestionTests
mod MessagingTests
mod RepositoryTests
mod RealtimeTests
pub mod ShakingTests
mod DeliveriesTests
mod ApiTests
mod ConfigTests
