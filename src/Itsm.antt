-- ===== src/Itsm.antt =====
-- The ticket system's updates: internal/infrastructure/postgres/itsm_inbound_mappings.go and
-- internal/delivery/http/itsm_inbound.go.
pub mod Mapping
pub mod Webhook
pub mod Chosen
pub mod Guard
