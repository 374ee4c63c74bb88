-- ===== src/Platform.antt =====
-- What the services are built from (src/config/configuration.ts and the injected clients), the
-- world that they change, and their calls of the database and of the event bus.
pub mod Uniqueness
pub mod Tenants
pub mod Mirror
use comos_pay_community_serv.Base.{
  ℕ, String, Bool, true, false, Option, none, some, List, [], ◌∷◌, ◌++◌, ◌==◌, M, Run, done, fail,
  Exception, unexpected,
}
use comos_pay_community_serv.Prisma.Schema.{
  StellarNetwork, WebhookEventType, Consumer, Customer, Product, PaymentIntent, WebhookEndpoint,
  WebhookDelivery,
}
use comos_pay_community_serv.Prisma.Table.{Table, Write, written, missing, conflict}
use comos_pay_community_serv.Prisma.Client.{PrismaClient}
use comos_pay_community_serv.Stellar.Horizon.{Reply, Horizon, Numbers}
use comos_pay_community_serv.Gateway.Consumer.{GatewayConsumer}

-- The part of `AppConfig` that the services read.
pub record AppConfig : Type 0 where
  pub network : StellarNetwork
  pub base_fee : String
  pub timeout_seconds : ℕ
  pub batch_size : ℕ
  pub ttl_seconds : ℕ
  pub max_attempts : ℕ
  pub backoff_ms : ℕ
  pub timeout_ms : ℕ
  pub signature_header : String

-- What the transaction builder of the Stellar SDK is given.
pub record TransactionRequest : Type 0 where
  pub source : String
  pub sequence : String
  pub fee : String
  pub network_passphrase : String
  pub destination : String
  pub amount : String
  pub asset : Option (String × String)
  pub memo : String
  pub timeout : ℕ

-- Everything outside this repository: the database, Horizon, the Stellar SDK, the QR code library
-- and `URLSearchParams`. Where one of them may throw, `none` says that it does.
pub record Platform : Type 1 where
  pub client : PrismaClient
  pub config : AppConfig
  pub horizon : Horizon
  pub numbers : Numbers
  -- `server(network).loadAccount(source)`: the account's sequence number.
  pub load_account : StellarNetwork → String → Reply String
  -- `new Asset(code, issuer)` does not throw.
  pub valid_asset : String → String → Bool
  -- `new TransactionBuilder(…)….build().toXDR()`
  pub build_xdr : TransactionRequest → Option String
  pub passphrase_public : String
  pub passphrase_testnet : String
  -- `QRCode.toDataURL(uri)`
  pub qr : String → Option String
  -- `new URLSearchParams(params).toString()`
  pub encode : List (String × String) → String

-- What the runtime and the database generate while one request is served: ids, the clock in
-- milliseconds, and eight random bytes.
pub record Supply : Type 0 where
  pub id : String
  pub consumer_id : String
  pub customer_id : String
  pub now : ℕ
  pub random : ℕ

-- `WebhookEventPayload`: an event on the internal bus.
pub record WebhookEvent : Type 0 where
  pub consumer_username : String
  pub type : WebhookEventType
  pub payload : PaymentIntent

-- The tables, and the events emitted so far, oldest first.
pub record World (D : PrismaClient) : Type 0 where
  pub consumers : D.consumer.State
  pub customers : D.customer.State
  pub products : D.product.State
  pub intents : D.payment_intent.State
  pub endpoints : D.webhook_endpoint.State
  pub deliveries : D.webhook_delivery.State
  pub logs : D.request_log.State
  pub bus : List WebhookEvent

abbrev pub not_found_error : Exception
not_found_error = unexpected "P2025"

abbrev pub unique_error : Exception
unique_error = unexpected "P2002"

module _ (D : PrismaClient) where
  -- `this.prisma.consumer.upsert(…)`, the `resolveConsumer` of each service.
  unfoldable pub resolve_consumer : Supply → GatewayConsumer → M (World D) Consumer
  resolve_consumer s consumer w =
      elim (D.consumer.upsert (λ c. c.apisix_username == consumer.username)
        (record {
          id = s.consumer_id;
          apisix_username = consumer.username;
          credential_id = consumer.credential_id;
          created_at = s.now;
        })
        (λ c. record c { credential_id = consumer.credential_id }) w.consumers) [
          | written c t ↦ done c (record w { consumers = t })
          | missing ↦ fail not_found_error w
          | conflict ↦ fail unique_error w
        ]

  -- The join `consumer: { apisixUsername: username }` of a `where` clause.
  abbrev pub owned_by : World D → String → String → Bool
  owned_by w username consumer_id = elim (D.consumer.get consumer_id w.consumers) [
    | none ↦ false
    | some c ↦ c.apisix_username == username
  ]

  -- `this.prisma.paymentIntent.update({ where: { id }, data })`
  unfoldable pub update_intent :
      String → (PaymentIntent → PaymentIntent) → M (World D) PaymentIntent
  update_intent id change w = elim (D.payment_intent.update id change w.intents) [
    | written r t ↦ done r (record w { intents = t })
    | missing ↦ fail not_found_error w
    | conflict ↦ fail unique_error w
  ]

  -- `emit` of the payment-intents service.
  abbrev pub emit : String → WebhookEventType → PaymentIntent → M (World D) (Unit {0})
  emit username type intent w = done tt (record w {
    bus = w.bus ++ record { consumer_username = username; type = type; payload = intent } ∷ [];
  })
