-- ===== src/Prisma/Schema.antt =====
-- The enums and models of prisma/schema.prisma that the services read and write, with the unique
-- constraints of each model. `updatedAt` is left out: no service reads it. Instants are
-- milliseconds.
use comos_pay_community_serv.Base.{
  ℕ, String, Bool, true, false, Option, some, List, ◌==◌, ◌≡◌, ◌≢◌, arith, ◌&&◌, ◌||◌,
}

-- Identifies one of two Stellar networks ('public' | 'testnet').
pub data StellarNetwork : Type 0 where
  public testnet : StellarNetwork

pub data WebhookEventType : Type 0 where
  payment_intent_created payment_intent_updated payment_intent_succeeded : WebhookEventType
  payment_intent_failed payment_intent_cancelled payment_intent_deleted : WebhookEventType

pub data WebhookDeliveryStatus : Type 0 where
  delivery_pending delivery_succeeded delivery_failed : WebhookDeliveryStatus

pub data PaymentIntentStatus : Type 0 where
  pending submitted succeeded failed cancelled expired : PaymentIntentStatus

pub data PaymentIntentKind : Type 0 where
  tx pay : PaymentIntentKind

abbrev pub status_eq : PaymentIntentStatus → PaymentIntentStatus → Bool
status_eq pending pending = true
status_eq submitted submitted = true
status_eq succeeded succeeded = true
status_eq failed failed = true
status_eq cancelled cancelled = true
status_eq expired expired = true
status_eq _ _ = false

pub status_eq-true : (a b : PaymentIntentStatus) → status_eq a b ≡ true → a ≡ b
status_eq-true a b h = ground arith

pub status_eq-false : (a b : PaymentIntentStatus) → status_eq a b ≡ false → a ≢ b
status_eq-false a b h e = ground arith

abbrev pub event_eq : WebhookEventType → WebhookEventType → Bool
event_eq payment_intent_created payment_intent_created = true
event_eq payment_intent_updated payment_intent_updated = true
event_eq payment_intent_succeeded payment_intent_succeeded = true
event_eq payment_intent_failed payment_intent_failed = true
event_eq payment_intent_cancelled payment_intent_cancelled = true
event_eq payment_intent_deleted payment_intent_deleted = true
event_eq _ _ = false

abbrev pub delivery_status_eq : WebhookDeliveryStatus → WebhookDeliveryStatus → Bool
delivery_status_eq delivery_pending delivery_pending = true
delivery_status_eq delivery_succeeded delivery_succeeded = true
delivery_status_eq delivery_failed delivery_failed = true
delivery_status_eq _ _ = false

pub record Consumer : Type 0 where
  pub id : String
  pub apisix_username : String
  pub credential_id : Option String
  pub created_at : ℕ

pub record Customer : Type 0 where
  pub id : String
  pub consumer_id : String
  pub name : String
  pub alias : Option String
  pub email : Option String
  pub account : Option String
  pub note : Option String
  pub reference : Option String
  pub created_at : ℕ

pub record Product : Type 0 where
  pub id : String
  pub consumer_id : String
  pub name : String
  pub description : Option String
  pub amount : Option String
  pub asset : String
  pub kind : String
  pub active : Bool
  pub reference : Option String
  pub created_at : ℕ

pub record PaymentIntent : Type 0 where
  pub id : String
  pub consumer_id : String
  pub kind : PaymentIntentKind
  pub source : Option String
  pub destination : String
  pub amount : Option String
  pub asset : String
  pub asset_issuer : Option String
  pub memo : String
  pub network : StellarNetwork
  pub msg : Option String
  pub callback : Option String
  pub status : PaymentIntentStatus
  pub xdr : Option String
  pub uri : String
  pub tx_hash : Option String
  pub reference : Option String
  pub expires_at : Option ℕ
  pub created_at : ℕ

pub record WebhookEndpoint : Type 0 where
  pub id : String
  pub consumer_id : String
  pub url : String
  pub secret : String
  pub description : Option String
  pub enabled : Bool
  pub event_types : List WebhookEventType
  pub created_at : ℕ

pub record WebhookDelivery : Type 0 where
  pub id : String
  pub endpoint_id : String
  pub event_type : WebhookEventType
  pub event_id : String
  pub payload : String
  pub status : WebhookDeliveryStatus
  pub attempts : ℕ
  pub response_status : Option ℕ
  pub error : Option String
  pub last_attempt_at : Option ℕ
  pub created_at : ℕ

pub record RequestLog : Type 0 where
  pub id : String
  pub consumer : Option String
  pub method : String
  pub path : String
  pub status_code : ℕ
  pub duration_ms : ℕ
  pub ip : Option String
  pub user_agent : Option String
  pub created_at : ℕ

-- Two values of a nullable unique column: nulls never clash.
abbrev pub same_value : Option String → Option String → Bool
same_value (some a) (some b) = a == b
same_value _ _ = false

abbrev pub consumer_clash : Consumer → Consumer → Bool
consumer_clash a b = a.apisix_username == b.apisix_username

-- `@@unique([consumerId, memo])`
abbrev pub same_memo : PaymentIntent → PaymentIntent → Bool
same_memo a b = a.consumer_id == b.consumer_id && a.memo == b.memo

-- `@@unique([consumerId, memo])` and `txHash String? @unique`
abbrev pub intent_clash : PaymentIntent → PaymentIntent → Bool
intent_clash a b = same_memo a b || same_value a.tx_hash b.tx_hash

-- A model with no unique column beside its id.
abbrev pub no_clash : {Row : Type 0} → Row → Row → Bool
no_clash a b = false
