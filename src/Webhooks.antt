-- ===== src/Webhooks.antt =====
-- The webhooks (src/webhooks): signatures, the dispatcher, and the endpoints of a consumer.
pub mod Signature
pub mod Dispatcher
pub mod Endpoints
