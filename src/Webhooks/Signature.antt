-- ===== src/Webhooks/Signature.antt =====
-- src/webhooks/webhook-signature.ts. The HMAC of node:crypto is a parameter.
use comos_pay_community_serv.Base.{ℕ, String, ◌<>◌}
use comos_pay_community_serv.Intents.Memo.{to_decimal}

module _ (hmac_sha256 : String → String → String) where
  unfoldable pub sign_payload : String → String → ℕ → String
  sign_payload secret body timestamp = hmac_sha256 secret (to_decimal timestamp <> ("." <> body))

  unfoldable pub build_signature_header : String → String → ℕ → String
  build_signature_header secret body timestamp =
      "t=" <> (to_decimal timestamp <> (",v1=" <> sign_payload secret body timestamp))
