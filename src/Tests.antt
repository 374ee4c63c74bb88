-- ===== src/Tests.antt =====
-- A small platform on which the theorems are applied: one consumer, one pending intent, one paid
-- transaction and one that failed.
pub mod Payments
pub mod Dashboard
pub mod Gatekeeping
pub mod Lifetimes
pub mod Startup
pub mod Requests
pub mod Deliveries
pub mod Creation
pub mod Entry
pub mod Statistics
pub mod Tenants
use comos_pay_community_serv.Base.{
  ℕ, String, Bool, true, false, Option, none, some, List, [], ◌∷◌, ◌==◌, ◌+◌, if◌then◌else◌,
}
use comos_pay_community_serv.Prisma.Schema.{
  Consumer, PaymentIntent, WebhookEndpoint, testnet, pay, pending, submitted, succeeded,
  payment_intent_succeeded,
}
use comos_pay_community_serv.Prisma.Client.{PrismaClient, memory_client}
use comos_pay_community_serv.Prisma.Memory.{memory_table}
use comos_pay_community_serv.Stellar.Horizon.{
  Reply, found, absent, TransactionRecord, OperationRecord, Horizon, Numbers,
}
use comos_pay_community_serv.Gateway.Consumer.{GatewayConsumer, dev, user}
use comos_pay_community_serv.Platform.{AppConfig, Platform, Supply, World}

abbrev pub texts : Numbers
texts = record { Number = String; number = λ s. s; same = λ a b. a == b }

abbrev pub payment : OperationRecord
payment = record {
  type = "payment";
  to = "SHOP";
  from = "PAYER";
  asset_type = "native";
  asset_code = none;
  asset_issuer = none;
  amount = "5";
  transaction_hash = "paid";
}

abbrev pub paid_transaction : TransactionRecord
paid_transaction = record { successful = true; memo_type = some "id"; memo = some "7" }

abbrev pub failed_transaction : TransactionRecord
failed_transaction = record { successful = false; memo_type = some "id"; memo = some "7" }

abbrev pub ledger : Horizon
ledger = record {
  transaction = λ network hash.
      if hash == "paid"
      then found paid_transaction
      else if hash == "failed"
      then found failed_transaction
      else absent;
  payments_for_transaction = λ network hash. found (payment ∷ []);
  payments_for_account = λ network account limit. found (payment ∷ []);
}

abbrev pub settings : AppConfig
settings = record {
  network = testnet;
  base_fee = "100";
  timeout_seconds = 300;
  batch_size = 50;
  ttl_seconds = 60;
  max_attempts = 3;
  backoff_ms = 1000;
  timeout_ms = 5000;
  signature_header = "x-cosmos-signature";
}

abbrev pub platform : Platform
platform = record {
  client = memory_client;
  config = settings;
  horizon = ledger;
  numbers = texts;
  load_account = λ network account. found "1";
  valid_asset = λ code issuer. true;
  build_xdr = λ request. some "XDR";
  passphrase_public = "public";
  passphrase_testnet = "testnet";
  qr = λ uri. some uri;
  encode = λ params. "params";
}

abbrev pub shop : Consumer
shop = record { id = "c1"; apisix_username = "shop"; credential_id = none; created_at = 1 }

abbrev pub order : PaymentIntent
order = record {
  id = "i1";
  consumer_id = "c1";
  kind = pay;
  source = none;
  destination = "SHOP";
  amount = some "5";
  asset = "native";
  asset_issuer = none;
  memo = "7";
  network = testnet;
  msg = none;
  callback = none;
  status = pending;
  xdr = none;
  uri = "web+stellar:pay?params";
  tx_hash = none;
  reference = none;
  expires_at = some 1000;
  created_at = 1;
}

abbrev pub paid_order : PaymentIntent
paid_order = record order { status = succeeded; tx_hash = some "paid" }

abbrev pub reported_order : PaymentIntent
reported_order = record order { status = submitted; tx_hash = some "paid" }

abbrev pub endpoint : WebhookEndpoint
endpoint = record {
  id = "e1";
  consumer_id = "c1";
  url = "https://shop.example";
  secret = "whsec_1";
  description = none;
  enabled = true;
  event_types = payment_intent_succeeded ∷ [];
  created_at = 1;
}

-- The world with the given intents.
abbrev pub world_with : List PaymentIntent → World memory_client
unfolding memory_table
world_with intents = record {
  consumers = shop ∷ [];
  customers = [];
  products = [];
  intents = intents;
  endpoints = endpoint ∷ [];
  deliveries = [];
  logs = [];
  bus = [];
}

abbrev pub empty_world : World memory_client
unfolding memory_table
empty_world = record {
  consumers = [];
  customers = [];
  products = [];
  intents = [];
  endpoints = [];
  deliveries = [];
  logs = [];
  bus = [];
}

abbrev pub supply : Supply
supply = record { id = "n1"; consumer_id = "c9"; customer_id = "k1"; now = 500; random = 12 }

abbrev pub shop_key : GatewayConsumer
shop_key = record {
  username = "shop";
  credential_id = some "key";
  environment = some dev;
  role = some user;
  permissions = "payments:read" ∷ [];
}
