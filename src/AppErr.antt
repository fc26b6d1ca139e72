-- ===== src/AppErr.antt =====
-- platform/apperr: the application error, its codes and its translations.
pub mod Code
pub mod Value
pub mod Pg
pub mod Grpc
pub mod Ozzo
