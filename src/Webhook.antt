-- ===== src/Webhook.antt =====
-- internal/webhook: the receiver of a registry's push events.
pub mod Providers
pub mod Tag
pub mod Trigger
pub mod Receiver
