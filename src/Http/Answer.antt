-- ===== src/Http/Answer.antt =====
-- What the handlers of the controllers return.
use comos_pay_community_serv.Base.{String, List}
use comos_pay_community_serv.Prisma.Schema.{WebhookEndpoint, WebhookDelivery, Customer, Product}
use comos_pay_community_serv.Intents.Store.{PaymentIntentView}
use comos_pay_community_serv.Intents.Settle.{ValidationOutcome}
use comos_pay_community_serv.Intents.Manage.{PaymentIntentList}
use comos_pay_community_serv.Webhooks.Dispatcher.{PingResult}
use comos_pay_community_serv.Webhooks.Endpoints.{SafeWebhookEndpoint, DeliveryList}
use comos_pay_community_serv.Customers.{CustomerList}
use comos_pay_community_serv.Products.{ProductList}
use comos_pay_community_serv.Analytics.{Floats}
use comos_pay_community_serv.Analytics.Summary.{Overview}
use comos_pay_community_serv.Analytics.Balances.{BalanceList}
use comos_pay_community_serv.Analytics.Logs.{ApiLogs, WebhookLogs}

pub data Answer (F : Floats) : Type 0 where
  intent : PaymentIntentView → Answer F
  intents : PaymentIntentList → Answer F
  validation : ValidationOutcome → Answer F
  -- `{ id, deleted: true }`
  deleted : String → Answer F
  endpoint_with_secret : WebhookEndpoint → Answer F
  endpoint : SafeWebhookEndpoint → Answer F
  endpoints : List SafeWebhookEndpoint → Answer F
  pinged : PingResult → Answer F
  delivery : WebhookDelivery → Answer F
  deliveries : DeliveryList → Answer F
  customer : Customer → Answer F
  customers : CustomerList → Answer F
  product : Product → Answer F
  products : ProductList → Answer F
  overview : Overview F → Answer F
  balances : BalanceList → Answer F
  api_log : ApiLogs → Answer F
  webhook_log : WebhookLogs → Answer F
  -- `{ status: 'ok' }`, and the report of a health check.
  healthy : Answer F
