-- ===== src/Webhook.antt =====
-- src/webhook: the events of mentions and replies, and their delivery.
pub mod ContextBuilder
pub mod Registry
pub mod Dispatcher
