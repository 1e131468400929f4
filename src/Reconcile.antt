-- ===== src/Reconcile.antt =====
-- What a config edit asks for (internal/reconcile/diff.go).
pub mod Change
pub mod Walk
pub mod Compare
pub mod Services
pub mod Storage
pub mod Machine
pub mod Templates
pub mod All
pub mod Same
pub mod Unchanged
pub mod Flavor
mod Tests
