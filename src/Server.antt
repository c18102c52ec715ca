-- ===== src/Server.antt =====
-- internal/server: what stands between a request and its handler.
pub mod Paths
pub mod Middleware
pub mod Limits
pub mod Handlers
