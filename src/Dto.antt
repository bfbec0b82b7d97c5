-- ===== src/Dto.antt =====
-- src/dto: the projections of td_api objects to the JSON that clients get.
pub mod Objects
pub mod Content
pub mod Projections
pub mod WebhookMessage
pub mod Attachments
pub mod Members
pub mod BestSize
pub mod Tests
