-- ===== src/Order.antt =====
-- services/order: the order service.
pub mod Domain
pub mod Event
pub mod Repo
pub mod Service
pub mod Grpc
