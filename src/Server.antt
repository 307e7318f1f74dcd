-- ===== src/Server.antt =====
-- server/app/server.py: the HTTP routes and the poll of one device.
pub mod Routes
pub mod Dispatch
pub mod Preflight
pub mod Contexts
pub mod Errors
