-- ===== src/Gateway.antt =====
-- services/gateway: from an HTTP request to the order service and back.
pub mod Client
pub mod Http
pub mod Laws
pub mod Middleware
pub mod Router
