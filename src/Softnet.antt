-- ===== src/Softnet.antt =====
-- softnet, the guest's network (internal/softnet): what leaves the guest and what enters it.
pub mod Egress
pub mod Dns
pub mod Ingress
pub mod Dedup
mod Tests
