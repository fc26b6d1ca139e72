-- ===== src/Telemetry.antt =====
-- platform/telemetry.
pub mod ErrorHandler
pub mod Build
pub mod Laws
pub mod Exporters
pub mod Resource
