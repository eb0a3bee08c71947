-- ===== src/Session.antt =====
-- Login sessions: internal/delivery/http/session.go, and the table of revoked sessions in
-- internal/infrastructure/postgres/session_revocations.go. One module for the revocations, one for
-- the tokens; the others prove.
pub mod Revocations
pub mod Token
pub mod Genuine
pub mod Safety
pub mod Revival
pub mod Roundtrip
