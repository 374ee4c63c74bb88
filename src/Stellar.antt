-- ===== src/Stellar.antt =====
-- The Stellar side of the service (src/stellar, src/payment-intents/stellar-verifier.service.ts):
-- what Horizon answers, and the verifier.
pub mod Horizon
pub mod Verifier
