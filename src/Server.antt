-- ===== src/Server.antt =====
-- internal/server/: which services the server takes, and how their routes are registered.
pub mod Router
pub mod Filter
pub mod Startup
