-- ===== src/Notification.antt =====
-- The notification service, notification-service/src: one module for each of its files.
pub mod Types
pub mod Auth
pub mod Subscriptions
pub mod Channels
pub mod Notifier
pub mod Watcher
pub mod Cli
