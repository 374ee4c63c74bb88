-- ===== src/Http/Hooks.antt =====
-- src/webhooks/webhooks.controller.ts
use comos_pay_community_serv.Base.{String, M, pure, ◌>>=◌}
use comos_pay_community_serv.Gateway.Consumer.{GatewayConsumer}
use comos_pay_community_serv.Gateway.Guards.{Route}
use comos_pay_community_serv.Platform.{Platform, World}
use comos_pay_community_serv.Webhooks.Endpoints.{
  CreateWebhookEndpointDto, UpdateWebhookEndpointDto, QueryDeliveriesDto, create, find_all,
  find_one, update, remove, rotate_secret, list_deliveries, redeliver_owned, ping,
}
use comos_pay_community_serv.Http.{Edge, Draws, requires}
use comos_pay_community_serv.Http.Answer.{Answer}

pub data WebhookCall : Type 0 where
  post : CreateWebhookEndpointDto → WebhookCall
  get_all : WebhookCall
  get_one : String → WebhookCall
  patch : String → UpdateWebhookEndpointDto → WebhookCall
  delete : String → WebhookCall
  post_rotate_secret : String → WebhookCall
  post_ping : String → WebhookCall
  get_deliveries : String → QueryDeliveriesDto → WebhookCall
  post_redeliver : String → String → WebhookCall

unfoldable pub webhook_route : WebhookCall → Route
webhook_route (post dto) = requires "webhooks:write"
webhook_route get_all = requires "webhooks:read"
webhook_route (get_one id) = requires "webhooks:read"
webhook_route (patch id dto) = requires "webhooks:write"
webhook_route (delete id) = requires "webhooks:write"
webhook_route (post_rotate_secret id) = requires "webhooks:write"
webhook_route (post_ping id) = requires "webhooks:write"
webhook_route (get_deliveries id query) = requires "webhooks:read"
webhook_route (post_redeliver id delivery_id) = requires "webhooks:write"

module _ (P : Platform) (E : Edge) where
  unfoldable pub handle_webhook :
      Draws → GatewayConsumer → WebhookCall → M (World P.client) (Answer E.floats)
  handle_webhook r consumer (post dto) = do
    e ← create P r.supply r.random consumer dto
    pure (Answer.endpoint_with_secret e)
  handle_webhook r consumer get_all = do
    es ← find_all P consumer.username
    pure (Answer.endpoints es)
  handle_webhook r consumer (get_one id) = do
    e ← find_one P consumer.username id
    pure (Answer.endpoint e)
  handle_webhook r consumer (patch id dto) = do
    e ← update P consumer.username id dto
    pure (Answer.endpoint e)
  handle_webhook r consumer (delete id) = do
    gone ← remove P consumer.username id
    pure (Answer.deleted gone)
  handle_webhook r consumer (post_rotate_secret id) = do
    e ← rotate_secret P consumer.username id r.random
    pure (Answer.endpoint_with_secret e)
  handle_webhook r consumer (post_ping id) = do
    p ← ping P E.codec r.transport r.uuid consumer.username id
    pure (Answer.pinged p)
  handle_webhook r consumer (get_deliveries id query) = do
    l ← list_deliveries P consumer.username id query
    pure (Answer.deliveries l)
  handle_webhook r consumer (post_redeliver id delivery_id) = do
    d ← redeliver_owned P E.codec r.transport consumer.username id delivery_id
    pure (Answer.delivery d)
