-- ===== src/Sync.antt =====
-- The guard and the monitor of the mutagen file sync (internal/serviceapi/mutagen_guard.go and
-- mutagen_monitor.go).
pub mod Quote
pub mod Guard
pub mod Monitor
mod Tests
