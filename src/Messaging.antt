-- ===== src/Messaging.antt =====
-- Messages between the services: consumed through an inbox, published from an outbox.
pub mod Inbox
pub mod Outbox
