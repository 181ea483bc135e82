-- ===== src/Platform.antt =====
-- internal/platform: the transaction runner, the access middlewares, and the world around them.
pub mod World
pub mod Uow
pub mod Access
pub mod Config
pub mod Whatsapp
pub mod HttpServer
