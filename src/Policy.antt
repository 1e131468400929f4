-- ===== src/Policy.antt =====
-- The egress policy: which requests a project may make (internal/policymatch, internal/serviceapi).
pub mod Glob
pub mod Match
pub mod Denials
pub mod Gate
pub mod Authority
mod Tests
