-- ===== src/Hairpin.antt =====
-- The HTTPS listener that a guest reaches (internal/serviceapi/sni_parse.go and hairpin_sni.go): the
-- name in a ClientHello, and where its connection goes.
pub mod Slice
pub mod Peers
pub mod Sni
pub mod Dispatch
mod Tests
