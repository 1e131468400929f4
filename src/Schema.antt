-- ===== src/Schema.antt =====
-- The devm.yaml schema (internal/schema).
pub mod Allow
pub mod Config
pub mod Functions
pub mod Labels
pub mod Peers
pub mod Repos
pub mod Secrets
pub mod Service
pub mod Services
pub mod Sizes
pub mod Valid
pub mod Validate
pub mod Volumes
mod Tests
pub mod Expand
