-- ===== src/Server.antt =====
-- internal/app/server/server.go: how the server is put together.
pub mod Config
pub mod Stack
pub mod Run
