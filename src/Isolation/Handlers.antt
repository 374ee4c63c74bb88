-- ===== src/Isolation/Handlers.antt =====
-- Each handler of the controllers spares the rows of other consumers.
use comos_pay_community_serv.Isolation.Spares.{
  IsSparing, IsSparing-pure, resolving-IsSparing, reading-IsSparing,
}
use comos_pay_community_serv.Isolation.Creation.{create_pay-IsSparing, create_tx-IsSparing}
use comos_pay_community_serv.Isolation.Settling.{validate-IsSparing}
use comos_pay_community_serv.Http.Answer.{Answer}
use comos_pay_community_serv.Http.Dashboard.{AnalyticsCall, handle_analytics}
use comos_pay_community_serv.Base.{refl}
use comos_pay_community_serv.Http.Calls.{Call, handle}
use comos_pay_community_serv.Http.Catalog.{
  CustomerCall, ProductCall, handle_customer, handle_product,
}
use comos_pay_community_serv.Http.{Draws, Edge}
use comos_pay_community_serv.Gateway.Consumer.{GatewayConsumer}
use comos_pay_community_serv.Prisma.Client.{IsLawfulClient}
use comos_pay_community_serv.Http.Payments.{PaymentIntentCall, handle_payment_intent}
use comos_pay_community_serv.Platform.{Platform}
use comos_pay_community_serv.Http.Hooks.{WebhookCall, handle_webhook}
use comos_pay_community_serv.Analytics.Logs.{api_logs, list_webhook_logs, webhook_logs}
use comos_pay_community_serv.Http.ReadOnly.{
  api_logs-IsReader, deliveries-IsReader, deliveries_log-IsReader, endpoint-IsReader,
  endpoints-IsReader, intent-IsReader, intents-IsReader,
}
use comos_pay_community_serv.Analytics.Balances.{balances, list_balances}
use comos_pay_community_serv.Webhooks.Endpoints.{
  create, list_deliveries, ping, redeliver_owned, rotate_secret,
}
use comos_pay_community_serv.Isolation.Hooks.{
  create-IsSparing, ping-IsSparing, redeliver_owned-IsSparing, remove-IsSparing,
  rotate_secret-IsSparing, update-IsSparing,
}
use comos_pay_community_serv.Isolation.Catalog.{
  create_customer-Spares, create_product-Spares, customer-IsSparing, edit_customer-IsSparing,
  edit_product-IsSparing, product-IsSparing, remove_customer-IsSparing, remove_product-IsSparing,
}
use comos_pay_community_serv.Intents.Create.{create_pay, create_tx}
use comos_pay_community_serv.Analytics.Summary.{endpoints_of, overview, summary}
use comos_pay_community_serv.Intents.Manage.{find_all, find_one, remove, update}
use comos_pay_community_serv.Customers.{list_customers}
use comos_pay_community_serv.Products.{list_products}
use comos_pay_community_serv.Intents.Settle.{validate}
use comos_pay_community_serv.Isolation.Settling
use comos_pay_community_serv.Isolation.Hooks
use comos_pay_community_serv.Intents.Manage
use comos_pay_community_serv.Customers
use comos_pay_community_serv.Products
use comos_pay_community_serv.Webhooks.Endpoints
use comos_pay_community_serv.Analytics.Summary
use comos_pay_community_serv.Analytics.Balances
use comos_pay_community_serv.Analytics.Logs

module _ (P : Platform) (E : Edge) (law : IsLawfulClient P.client) (r : Draws)
    (c : GatewayConsumer) where
  payments-IsSparing :
      (call : PaymentIntentCall) → IsSparing P c.username (handle_payment_intent P E r c call)
  unfolding handle_payment_intent
  payments-IsSparing (PaymentIntentCall.post_tx dto) =
      IsSparing-pure P c.username (create_tx P r.supply c dto) Answer.intent
        (create_tx-IsSparing P law r.supply c dto)
  payments-IsSparing (PaymentIntentCall.post_pay dto) =
      IsSparing-pure P c.username (create_pay P r.supply c dto) Answer.intent
        (create_pay-IsSparing P law r.supply c dto)
  payments-IsSparing (PaymentIntentCall.get_all query) =
      reading-IsSparing P c.username (Manage.find_all P c.username query) Answer.intents
        (intents-IsReader P c.username query)
  payments-IsSparing (PaymentIntentCall.get_one id) =
      reading-IsSparing P c.username (Manage.find_one P c.username id) Answer.intent
        (intent-IsReader P c.username id)
  payments-IsSparing (PaymentIntentCall.post_validate id hash) =
      IsSparing-pure P c.username (validate P r.supply c.username id hash) Answer.validation
        (validate-IsSparing P law c.username r.supply id hash)
  payments-IsSparing (PaymentIntentCall.patch id dto) =
      IsSparing-pure P c.username (Manage.update P c.username id dto) Answer.intent
        (Settling.update-IsSparing P law c.username id dto)
  payments-IsSparing (PaymentIntentCall.delete id) =
      IsSparing-pure P c.username (Manage.remove P c.username id) Answer.deleted
        (Settling.remove-IsSparing P law c.username id)

  webhooks-IsSparing : (call : WebhookCall) → IsSparing P c.username (handle_webhook P E r c call)
  unfolding handle_webhook
  webhooks-IsSparing (WebhookCall.post dto) =
      IsSparing-pure P c.username (Endpoints.create P r.supply r.random c dto)
        Answer.endpoint_with_secret (Hooks.create-IsSparing P law r.supply r.random c dto)
  webhooks-IsSparing WebhookCall.get_all =
      reading-IsSparing P c.username (Endpoints.find_all P c.username) Answer.endpoints
        (endpoints-IsReader P c.username)
  webhooks-IsSparing (WebhookCall.get_one id) =
      reading-IsSparing P c.username (Endpoints.find_one P c.username id) Answer.endpoint
        (endpoint-IsReader P c.username id)
  webhooks-IsSparing (WebhookCall.patch id dto) =
      IsSparing-pure P c.username (Endpoints.update P c.username id dto) Answer.endpoint
        (Hooks.update-IsSparing P law c.username id dto)
  webhooks-IsSparing (WebhookCall.delete id) =
      IsSparing-pure P c.username (Endpoints.remove P c.username id) Answer.deleted
        (Hooks.remove-IsSparing P law c.username id)
  webhooks-IsSparing (WebhookCall.post_rotate_secret id) =
      IsSparing-pure P c.username (Endpoints.rotate_secret P c.username id r.random)
        Answer.endpoint_with_secret (Hooks.rotate_secret-IsSparing P law c.username id r.random)
  webhooks-IsSparing (WebhookCall.post_ping id) =
      IsSparing-pure P c.username (Endpoints.ping P E.codec r.transport r.uuid c.username id)
        Answer.pinged (Hooks.ping-IsSparing P law c.username E.codec r.transport r.uuid id)
  webhooks-IsSparing (WebhookCall.get_deliveries id query) =
      reading-IsSparing P c.username (Endpoints.list_deliveries P c.username id query)
        Answer.deliveries (deliveries-IsReader P c.username id query)
  webhooks-IsSparing (WebhookCall.post_redeliver id delivery_id) =
      IsSparing-pure P c.username
        (Endpoints.redeliver_owned P E.codec r.transport c.username id delivery_id) Answer.delivery
        (Hooks.redeliver_owned-IsSparing P law c.username E.codec r.transport id delivery_id)

  customers-IsSparing :
      (call : CustomerCall) → IsSparing P c.username (handle_customer P E r c call)
  unfolding handle_customer Customers.find_all Customers.list_customers
  customers-IsSparing (CustomerCall.post dto) =
      IsSparing-pure P c.username (Customers.create P r.supply c dto) Answer.customer
        (create_customer-Spares P law r.supply c dto)
  customers-IsSparing CustomerCall.get_all =
      IsSparing-pure P c.username (Customers.find_all P E.sums r.supply c) Answer.customers (
        resolving-IsSparing P law r.supply c (λ local. Customers.list_customers P E.sums local.id)
          (λ local w. refl))
  customers-IsSparing (CustomerCall.get_one id) =
      IsSparing-pure P c.username (Customers.find_one P r.supply c id) Answer.customer
        (customer-IsSparing P law r.supply c id)
  customers-IsSparing (CustomerCall.patch id dto) =
      IsSparing-pure P c.username (Customers.update P r.supply c id dto) Answer.customer
        (edit_customer-IsSparing P law r.supply c id dto)
  customers-IsSparing (CustomerCall.delete id) =
      IsSparing-pure P c.username (Customers.remove P r.supply c id) Answer.deleted
        (remove_customer-IsSparing P law r.supply c id)

  products-IsSparing : (call : ProductCall) → IsSparing P c.username (handle_product P E r c call)
  unfolding handle_product Products.find_all Products.list_products
  products-IsSparing (ProductCall.post dto) =
      IsSparing-pure P c.username (Products.create P r.supply c dto) Answer.product
        (create_product-Spares P law r.supply c dto)
  products-IsSparing ProductCall.get_all =
      IsSparing-pure P c.username (Products.find_all P r.supply c) Answer.products (
        resolving-IsSparing P law r.supply c (λ local. Products.list_products P local.id)
          (λ local w. refl))
  products-IsSparing (ProductCall.get_one id) =
      IsSparing-pure P c.username (Products.find_one P r.supply c id) Answer.product
        (product-IsSparing P law r.supply c id)
  products-IsSparing (ProductCall.patch id dto) =
      IsSparing-pure P c.username (Products.update P r.supply c id dto) Answer.product
        (edit_product-IsSparing P law r.supply c id dto)
  products-IsSparing (ProductCall.delete id) =
      IsSparing-pure P c.username (Products.remove P r.supply c id) Answer.deleted
        (remove_product-IsSparing P law r.supply c id)

  analytics-IsSparing :
      (call : AnalyticsCall) → IsSparing P c.username (handle_analytics P E r c call)
  unfolding handle_analytics Summary.summary Summary.overview Balances.balances
      Balances.list_balances Logs.webhook_logs Logs.list_webhook_logs
  analytics-IsSparing AnalyticsCall.get_summary =
      IsSparing-pure P c.username (Summary.summary P E.floats E.iso_date r.supply c) Answer.overview
        (resolving-IsSparing P law r.supply c
          (λ local. Summary.overview P E.floats E.iso_date r.supply.now c local.id)
          (λ local w. refl))
  analytics-IsSparing AnalyticsCall.get_balances =
      IsSparing-pure P c.username (Balances.balances E.floats P r.supply c) Answer.balances (
        resolving-IsSparing P law r.supply c (λ local. Balances.list_balances E.floats P c local.id)
          (λ local w. refl))
  analytics-IsSparing AnalyticsCall.get_logs =
      reading-IsSparing P c.username (Logs.api_logs P 100 c) Answer.api_log
        (api_logs-IsReader P 100 c)
  analytics-IsSparing AnalyticsCall.get_webhook_logs =
      IsSparing-pure P c.username (Logs.webhook_logs P r.supply 100 c) Answer.webhook_log (
        resolving-IsSparing P law r.supply c (λ local. Logs.list_webhook_logs P 100 local.id)
          λ local w. deliveries_log-IsReader P 100 (Summary.endpoints_of P w local.id) w)

  pub handle-IsSparing : (call : Call) → IsSparing P c.username (handle P E r c call)
  unfolding handle
  handle-IsSparing (Call.payment_intents call) = payments-IsSparing call
  handle-IsSparing (Call.webhooks call) = webhooks-IsSparing call
  handle-IsSparing (Call.customers call) = customers-IsSparing call
  handle-IsSparing (Call.products call) = products-IsSparing call
  handle-IsSparing (Call.analytics call) = analytics-IsSparing call
