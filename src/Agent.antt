-- ===== src/Agent.antt =====
-- internal/app/agent: the program that polls metrics and reports them to the server.
pub mod Config
pub mod Reporter
pub mod HttpRetry
pub mod Poller
pub mod Workers
