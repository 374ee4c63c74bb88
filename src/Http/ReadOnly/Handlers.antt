-- ===== src/Http/ReadOnly/Handlers.antt =====
-- The handlers of the controllers that only read.
use comos_pay_community_serv.Base.{String, Bool, false, List, [], ◌∷◌, ◌≡◌, any, includes}
use comos_pay_community_serv.Gateway.Consumer.{GatewayConsumer}
use comos_pay_community_serv.Gateway.Guards.{required}
use comos_pay_community_serv.Platform.{Platform}
use comos_pay_community_serv.Intents.Manage
use comos_pay_community_serv.Webhooks.Endpoints
use comos_pay_community_serv.Webhooks.Endpoints.{get_owned, page_of_deliveries, endpoint_not_found}
use comos_pay_community_serv.Http.Answer.{Answer}
use comos_pay_community_serv.Customers
use comos_pay_community_serv.Products
use comos_pay_community_serv.Analytics.Summary
use comos_pay_community_serv.Analytics.Balances
use comos_pay_community_serv.Analytics.Logs
use comos_pay_community_serv.Http.{Edge, Draws}
use comos_pay_community_serv.Http.Payments.{PaymentIntentCall, handle_payment_intent}
use comos_pay_community_serv.Http.Hooks.{WebhookCall, handle_webhook}
use comos_pay_community_serv.Http.Catalog.{
  CustomerCall, handle_customer, ProductCall, handle_product,
}
use comos_pay_community_serv.Http.Dashboard.{AnalyticsCall, handle_analytics}
use comos_pay_community_serv.Http.Calls.{
  Call, payment_intents, webhooks, customers, products, analytics, route_of, handle,
}
use comos_pay_community_serv.Http.ReadOnly.{
  IsMirror, IsMirror-pure, reading, intent-IsReader, intents-IsReader, endpoints-IsReader,
  endpoint-IsReader, deliveries-IsReader, api_logs-IsReader, customers-IsMirror, customer-IsMirror,
  products-IsMirror, product-IsMirror, summary-IsMirror, balances-IsMirror, webhook_logs-IsMirror,
}

-- The scopes of the routes that write.
abbrev pub write_scopes : List String
write_scopes = "payments:write" ∷ "webhooks:write" ∷ "customers:write" ∷ "products:write" ∷ []

-- The route of the call requires one of them.
abbrev pub writes : Call → Bool
writes call = any (λ scope. includes scope write_scopes) (required (route_of call))

module _ (P : Platform) (E : Edge) (r : Draws) (c : GatewayConsumer) where
  read_payment_intents :
      (call : PaymentIntentCall)
      → writes (payment_intents call) ≡ false
      → IsMirror P c (handle_payment_intent P E r c call)
  unfolding route_of handle_payment_intent
  read_payment_intents (PaymentIntentCall.post_tx dto) h = cc
  read_payment_intents (PaymentIntentCall.post_pay dto) h = cc
  read_payment_intents (PaymentIntentCall.get_all query) h =
      reading P c (Manage.find_all P c.username query) Answer.intents
        (intents-IsReader P c.username query)
  read_payment_intents (PaymentIntentCall.get_one id) h =
      reading P c (Manage.find_one P c.username id) Answer.intent (intent-IsReader P c.username id)
  read_payment_intents (PaymentIntentCall.post_validate id hash) h = cc
  read_payment_intents (PaymentIntentCall.patch id dto) h = cc
  read_payment_intents (PaymentIntentCall.delete id) h = cc

  read_webhooks :
      (call : WebhookCall)
      → writes (webhooks call) ≡ false
      → IsMirror P c (handle_webhook P E r c call)
  unfolding route_of handle_webhook
  read_webhooks (WebhookCall.post dto) h = cc
  read_webhooks WebhookCall.get_all h =
      reading P c (Endpoints.find_all P c.username) Answer.endpoints
        (endpoints-IsReader P c.username)
  read_webhooks (WebhookCall.get_one id) h =
      reading P c (Endpoints.find_one P c.username id) Answer.endpoint
        (endpoint-IsReader P c.username id)
  read_webhooks (WebhookCall.patch id dto) h = cc
  read_webhooks (WebhookCall.delete id) h = cc
  read_webhooks (WebhookCall.post_rotate_secret id) h = cc
  read_webhooks (WebhookCall.post_ping id) h = cc
  read_webhooks (WebhookCall.get_deliveries id query) h =
      reading P c (Endpoints.list_deliveries P c.username id query) Answer.deliveries
        (deliveries-IsReader P c.username id query)
  read_webhooks (WebhookCall.post_redeliver id delivery_id) h = cc

  read_customers :
      (call : CustomerCall)
      → writes (customers call) ≡ false
      → IsMirror P c (handle_customer P E r c call)
  unfolding route_of handle_customer
  read_customers (CustomerCall.post dto) h = cc
  read_customers CustomerCall.get_all h =
      IsMirror-pure P c (Customers.find_all P E.sums r.supply c) Answer.customers
        (customers-IsMirror P E r.supply c)
  read_customers (CustomerCall.get_one id) h =
      IsMirror-pure P c (Customers.find_one P r.supply c id) Answer.customer
        (customer-IsMirror P E r.supply c id)
  read_customers (CustomerCall.patch id dto) h = cc
  read_customers (CustomerCall.delete id) h = cc

  read_products :
      (call : ProductCall)
      → writes (products call) ≡ false
      → IsMirror P c (handle_product P E r c call)
  unfolding route_of handle_product
  read_products (ProductCall.post dto) h = cc
  read_products ProductCall.get_all h =
      IsMirror-pure P c (Products.find_all P r.supply c) Answer.products
        (products-IsMirror P E r.supply c)
  read_products (ProductCall.get_one id) h =
      IsMirror-pure P c (Products.find_one P r.supply c id) Answer.product
        (product-IsMirror P E r.supply c id)
  read_products (ProductCall.patch id dto) h = cc
  read_products (ProductCall.delete id) h = cc

  read_analytics : (call : AnalyticsCall) → IsMirror P c (handle_analytics P E r c call)
  unfolding handle_analytics
  read_analytics AnalyticsCall.get_summary =
      IsMirror-pure P c (Summary.summary P E.floats E.iso_date r.supply c) Answer.overview
        (summary-IsMirror P E r.supply c)
  read_analytics AnalyticsCall.get_balances =
      IsMirror-pure P c (Balances.balances E.floats P r.supply c) Answer.balances
        (balances-IsMirror P E r.supply c)
  read_analytics AnalyticsCall.get_logs =
      reading P c (Logs.api_logs P 100 c) Answer.api_log (api_logs-IsReader P 100 c)
  read_analytics AnalyticsCall.get_webhook_logs =
      IsMirror-pure P c (Logs.webhook_logs P r.supply 100 c) Answer.webhook_log
        (webhook_logs-IsMirror P E r.supply c 100)

  -- A call whose route requires no write scope leaves the world as it was, but for the mirror of
  -- the caller among the consumers.
  pub handle-IsMirror : (call : Call) → writes call ≡ false → IsMirror P c (handle P E r c call)
  unfolding handle
  handle-IsMirror (payment_intents call) h = read_payment_intents call h
  handle-IsMirror (webhooks call) h = read_webhooks call h
  handle-IsMirror (customers call) h = read_customers call h
  handle-IsMirror (products call) h = read_products call h
  handle-IsMirror (analytics call) h = read_analytics call
