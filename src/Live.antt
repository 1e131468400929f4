-- ===== src/Live.antt =====
-- internal/reconcile/apply_live.go: what a live edit does to the guest, to the mirrors on the Mac and
-- to the sync sessions, in which order.
pub mod World
pub mod Guest
pub mod Mirrors
pub mod Sessions
pub mod Volumes
pub mod Repos
pub mod Apply
pub mod Careful
pub mod Lockstep
mod Tests
