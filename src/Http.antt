-- ===== src/Http.antt =====
-- src/http: the pure parts of the HTTP layer.
pub mod IdempotencyCache
pub mod ScopePolicy
pub mod BearerAuth
pub mod ByteRange
pub mod Helpers
pub mod WebhookRoutes
pub mod UploadSanitize
