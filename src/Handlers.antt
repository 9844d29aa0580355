-- ===== src/Handlers.antt =====
-- internal/handlers: the HTTP handlers of the server, and the adapters between requests and metrics.
pub mod Adapters
pub mod Router
pub mod Routes
