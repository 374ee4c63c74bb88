-- ===== src/Gateway.antt =====
-- What a request passes before a handler runs (src/common).
pub mod Consumer
pub mod Context
pub mod Guards
