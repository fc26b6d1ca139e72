-- ===== src/Notification.antt =====
-- services/notification: from an order event to the notifications about it.
pub mod Repo
pub mod Service
pub mod Handler
pub mod Recorded
pub mod Redelivery
pub mod Consumer
