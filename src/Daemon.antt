-- ===== src/Daemon.antt =====
-- The tables that the daemon shares between projects (internal/serviceapi).
pub mod Ports
pub mod ProjectIp
pub mod Routes
mod Tests
