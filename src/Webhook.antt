-- ===== src/Webhook.antt =====
-- The admission webhook (api/v1alpha1/dnsrecord_webhook.go): defaulting and validation.
pub mod Default
pub mod Validate
