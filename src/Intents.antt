-- ===== src/Intents.antt =====
-- src/payment-intents: the payment intents of a consumer, from creation to settlement.
pub mod Resolve
pub mod Memo
pub mod Store
pub mod Create
pub mod Settle
pub mod Manage
