-- ===== src/Web.antt =====
-- The checks in front of every handler: trusted_proxy.go, https_policy.go and csrf.go of
-- internal/delivery/http.
pub mod Peer
pub mod Checks
pub mod Forged
