-- ===== src/Login.antt =====
-- The limiter of login attempts: internal/delivery/http/login_rate_limit.go keeps one in memory, and
-- internal/infrastructure/postgres/login_rate_limit.go keeps the one that the servers share.
pub mod Local
pub mod Shared
pub mod Handler
pub mod Lockout
pub mod Fallback
pub mod Agreement
