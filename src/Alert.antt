-- ===== src/Alert.antt =====
-- Alertmanager's webhook: internal/delivery/http/alert_webhook.go.
pub mod Webhook
pub mod Rate
pub mod Once
pub mod Guard
