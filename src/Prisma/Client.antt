-- ===== src/Prisma/Client.antt =====
-- The Prisma client as the services receive it (src/prisma/prisma.service.ts): a table for each
-- model, and the laws that each of them meets.
use comos_pay_community_serv.Base.{String}
use comos_pay_community_serv.Prisma.Schema.{
  Consumer, Customer, Product, PaymentIntent, WebhookEndpoint, WebhookDelivery, RequestLog,
  consumer_clash, intent_clash, no_clash,
}
use comos_pay_community_serv.Prisma.Table.{Table, IsLawful}
use comos_pay_community_serv.Prisma.Memory.{memory_table}
use comos_pay_community_serv.Prisma.Memory.Lawful.{memory_table-IsLawful}

pub record PrismaClient : Type 1 where
  pub consumer : Table Consumer
  pub customer : Table Customer
  pub product : Table Product
  pub payment_intent : Table PaymentIntent
  pub webhook_endpoint : Table WebhookEndpoint
  pub webhook_delivery : Table WebhookDelivery
  pub request_log : Table RequestLog

abbrev pub consumer_key : Consumer → String
consumer_key r = r.id

abbrev pub customer_key : Customer → String
customer_key r = r.id

abbrev pub product_key : Product → String
product_key r = r.id

abbrev pub intent_key : PaymentIntent → String
intent_key r = r.id

abbrev pub endpoint_key : WebhookEndpoint → String
endpoint_key r = r.id

abbrev pub delivery_key : WebhookDelivery → String
delivery_key r = r.id

abbrev pub log_key : RequestLog → String
log_key r = r.id

pub record IsLawfulClient (D : PrismaClient) : Type 0 where
  pub consumer : IsLawful consumer_key consumer_clash D.consumer
  pub customer : IsLawful customer_key no_clash D.customer
  pub product : IsLawful product_key no_clash D.product
  pub payment_intent : IsLawful intent_key intent_clash D.payment_intent
  pub webhook_endpoint : IsLawful endpoint_key no_clash D.webhook_endpoint
  pub webhook_delivery : IsLawful delivery_key no_clash D.webhook_delivery
  pub request_log : IsLawful log_key no_clash D.request_log

-- A client in memory, for the examples.
abbrev pub memory_client : PrismaClient
memory_client = record {
  consumer = memory_table consumer_key consumer_clash;
  customer = memory_table customer_key no_clash;
  product = memory_table product_key no_clash;
  payment_intent = memory_table intent_key intent_clash;
  webhook_endpoint = memory_table endpoint_key no_clash;
  webhook_delivery = memory_table delivery_key no_clash;
  request_log = memory_table log_key no_clash;
}

pub memory_client-IsLawfulClient : IsLawfulClient memory_client
memory_client-IsLawfulClient = record {
  consumer = memory_table-IsLawful consumer_key consumer_clash;
  customer = memory_table-IsLawful customer_key no_clash;
  product = memory_table-IsLawful product_key no_clash;
  payment_intent = memory_table-IsLawful intent_key intent_clash;
  webhook_endpoint = memory_table-IsLawful endpoint_key no_clash;
  webhook_delivery = memory_table-IsLawful delivery_key no_clash;
  request_log = memory_table-IsLawful log_key no_clash;
}
