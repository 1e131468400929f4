-- ===== src/Reconcile/Same.antt =====
-- When `ComputeAllChanges` finds nothing.
pub mod Iff
pub mod Services
pub mod Storage
pub mod Machine
pub mod Templates
