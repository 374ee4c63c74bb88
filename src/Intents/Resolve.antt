-- ===== src/Intents/Resolve.antt =====
-- `resolveNetwork`, `resolveAsset` and `statusEvent` of
-- src/payment-intents/payment-intents.service.ts, and `passphrase` of src/stellar.
use comos_pay_community_serv.Base.{
  String, ◌<>◌, Bool, ◌||◌, Option, none, some, ◌==◌, trim, lower_eq, if◌then◌else◌, Outcome, value,
  raised, bad_request, unexpected,
}
use comos_pay_community_serv.Prisma.Schema.{
  StellarNetwork, public, testnet, WebhookEventType, payment_intent_updated,
  payment_intent_succeeded, payment_intent_failed, payment_intent_cancelled, PaymentIntentStatus,
  succeeded, failed, cancelled,
}
use comos_pay_community_serv.Gateway.Consumer.{Environment, dev, prod}
use comos_pay_community_serv.Platform.{Platform}

unfoldable pub resolve_network : StellarNetwork → Option Environment → StellarNetwork
resolve_network fallback (some prod) = public
resolve_network fallback (some dev) = testnet
resolve_network fallback none = fallback

unfoldable pub status_event : PaymentIntentStatus → WebhookEventType
status_event succeeded = payment_intent_succeeded
status_event failed = payment_intent_failed
status_event cancelled = payment_intent_cancelled
status_event _ = payment_intent_updated

-- The stored form of an asset; `asset_of` is the SDK's.
pub record ResolvedAsset : Type 0 where
  pub code : String
  pub issuer : Option String

abbrev pub native_asset : ResolvedAsset
native_asset = record { code = "native"; issuer = none }

-- `!code || code.toLowerCase() === 'xlm' || code.toLowerCase() === 'native'`
unfoldable pub is_native_code : String → Bool
unfolding lower_eq
is_native_code code = code == "" || lower_eq code "xlm" || lower_eq code "native"

module _ (P : Platform) where
  resolve_issued : String → Option String → Outcome ResolvedAsset
  resolve_issued code none =
      raised (bad_request ("assetIssuer is required for non-native asset \"" <> (code <> "\"")))
  resolve_issued code (some issuer) =
      if issuer == ""
      then raised
          (bad_request ("assetIssuer is required for non-native asset \"" <> (code <> "\"")))
      else if P.valid_asset code issuer
      then value (record { code = code; issuer = some issuer })
      else raised (unexpected "Asset code is invalid")

  unfoldable pub resolve_asset : Option String → Option String → Outcome ResolvedAsset
  unfolding is_native_code resolve_issued trim
  resolve_asset none asset_issuer = value native_asset
  resolve_asset (some asset_code) asset_issuer =
      if is_native_code (trim asset_code)
      then value native_asset
      else resolve_issued (trim asset_code) asset_issuer

  unfoldable pub passphrase : StellarNetwork → String
  passphrase public = P.passphrase_public
  passphrase testnet = P.passphrase_testnet

abbrev pub asset_of : ResolvedAsset → Option (String × String)
asset_of a = elim a.issuer [ none ↦ none | some issuer ↦ some (a.code, issuer) ]
