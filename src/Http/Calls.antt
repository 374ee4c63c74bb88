-- ===== src/Http/Calls.antt =====
-- The calls of all controllers that the gateway's consumers make.
use comos_pay_community_serv.Base.{M}
use comos_pay_community_serv.Gateway.Consumer.{GatewayConsumer}
use comos_pay_community_serv.Gateway.Guards.{Route}
use comos_pay_community_serv.Platform.{Platform, World}
use comos_pay_community_serv.Http.{Edge, Draws}
use comos_pay_community_serv.Http.Answer.{Answer}
use comos_pay_community_serv.Http.Payments.{
  PaymentIntentCall, payment_intent_route, handle_payment_intent,
}
use comos_pay_community_serv.Http.Hooks.{WebhookCall, webhook_route, handle_webhook}
use comos_pay_community_serv.Http.Catalog.{
  CustomerCall, customer_route, handle_customer, ProductCall, product_route, handle_product,
}
use comos_pay_community_serv.Http.Dashboard.{AnalyticsCall, analytics_route, handle_analytics}

pub data Call : Type 0 where
  payment_intents : PaymentIntentCall → Call
  webhooks : WebhookCall → Call
  customers : CustomerCall → Call
  products : ProductCall → Call
  analytics : AnalyticsCall → Call

unfoldable pub route_of : Call → Route
unfolding payment_intent_route webhook_route customer_route product_route analytics_route
route_of (payment_intents call) = payment_intent_route call
route_of (webhooks call) = webhook_route call
route_of (customers call) = customer_route call
route_of (products call) = product_route call
route_of (analytics call) = analytics_route call

module _ (P : Platform) (E : Edge) where
  unfoldable pub handle : Draws → GatewayConsumer → Call → M (World P.client) (Answer E.floats)
  handle r consumer (payment_intents call) = handle_payment_intent P E r consumer call
  handle r consumer (webhooks call) = handle_webhook P E r consumer call
  handle r consumer (customers call) = handle_customer P E r consumer call
  handle r consumer (products call) = handle_product P E r consumer call
  handle r consumer (analytics call) = handle_analytics P E r consumer call
