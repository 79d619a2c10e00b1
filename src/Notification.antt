-- ===== src/Notification.antt =====
-- Notifications: what a subscription asks for, and how its deliveries are made.
pub mod Subscription
pub mod Alert
pub mod Delivery
pub mod Worker
