-- ===== src/Analytics.antt =====
-- What the aggregates of src/analytics/analytics.service.ts share: the numbers of JavaScript, the
-- labels, and the intents that a caller sees.
pub mod Series
pub mod Summary
pub mod Balances
pub mod Logs
use comos_pay_community_serv.Base.{
  ℕ, ◌*◌, String, Bool, true, false, ◌&&◌, Option, none, some, List, ◌==◌, truthy, if◌then◌else◌,
}
use comos_pay_community_serv.Prisma.Schema.{StellarNetwork, public, testnet, PaymentIntent}
use comos_pay_community_serv.Prisma.Table.{Order, whole}
use comos_pay_community_serv.Gateway.Consumer.{Environment, dev, prod, GatewayConsumer}
use comos_pay_community_serv.Platform.{Platform, World}

-- The numbers of JavaScript, as far as the aggregates use them. `less` is `<`, `to_fixed` is
-- `n.toFixed(digits)`, `of_text` is `Number(text)` and `to_text` is `n.toString()`.
pub record Floats : Type 1 where
  pub Number : Type 0
  pub of_nat : ℕ → Number
  pub of_text : String → Number
  pub is_finite : Number → Bool
  pub add : Number → Number → Number
  pub times : Number → Number → Number
  pub over : Number → Number → Number
  pub round : Number → Number
  pub less : Number → Number → Bool
  pub to_fixed : Number → ℕ → String
  pub to_text : Number → String

-- `24 * 60 * 60 * 1000`
abbrev pub day_ms : ℕ
day_ms = 86400000

module _ (F : Floats) where
  unfoldable pub num : Option String → F.Number
  num none = F.of_nat 0
  num (some text) =
      if truthy (some text)
      then (if F.is_finite (F.of_text text) then F.of_text text else F.of_nat 0)
      else F.of_nat 0

  unfoldable pub money : F.Number → String
  money n = F.to_text (F.of_text (F.to_fixed n 7))

unfoldable pub asset_label : String → String
asset_label asset =
    if truthy (some asset) then (if asset == "native" then "XLM" else asset) else "XLM"

-- `network` of the service: the network of the key's environment.
unfoldable pub network_of : Option Environment → StellarNetwork
network_of none = testnet
network_of (some dev) = testnet
network_of (some prod) = public

abbrev pub network_eq : StellarNetwork → StellarNetwork → Bool
network_eq public public = true
network_eq testnet testnet = true
network_eq _ _ = false

-- `where: { consumerId, network }`
abbrev pub is_scoped : String → StellarNetwork → PaymentIntent → Bool
is_scoped consumer_id network i = i.consumer_id == consumer_id && network_eq i.network network

module _ (P : Platform) where
  abbrev pub scoped_intents : World P.client → String → StellarNetwork → Order → List PaymentIntent
  scoped_intents w consumer_id network order =
      P.client.payment_intent.find_many (is_scoped consumer_id network) (whole order) w.intents
