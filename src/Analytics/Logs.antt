-- ===== src/Analytics/Logs.antt =====
-- `apiLogs` and `webhookLogs` of src/analytics/analytics.service.ts.
pub mod Scoped
use comos_pay_community_serv.Base.{
  ℕ, String, Bool, true, false, Option, none, some, List, [], ◌∷◌, ◌==◌, map, length, ltb, includes,
  option_eq, coalesce, map_get, map_set, M, Run, done, fail, ◌>>=◌, if◌then◌else◌,
}
use comos_pay_community_serv.Prisma.Schema.{
  RequestLog, WebhookDelivery, WebhookEndpoint, WebhookEventType, WebhookDeliveryStatus,
  delivery_succeeded, delivery_failed, delivery_pending,
}
use comos_pay_community_serv.Prisma.Table.{Page, created_desc, unordered, whole}
use comos_pay_community_serv.Gateway.Consumer.{GatewayConsumer}
use comos_pay_community_serv.Platform.{Platform, World, Supply, resolve_consumer}
use comos_pay_community_serv.Analytics.Summary.{endpoints_of, ids_of}

-- 'ok', 'pending' and 'fail'.
pub data Health : Type 0 where
  ok waiting fails : Health

pub record ApiLogRow : Type 0 where
  pub log : RequestLog
  pub status : Health

pub record ApiLogs : Type 0 where
  pub items : List ApiLogRow
  pub total : ℕ

pub record WebhookLogRow : Type 0 where
  pub id : String
  pub endpoint_id : String
  pub url : Option String
  pub event_type : WebhookEventType
  pub event_id : String
  pub attempts : ℕ
  pub response_status : Option ℕ
  pub error : Option String
  pub status : Health
  pub at : ℕ

pub record WebhookLogs : Type 0 where
  pub items : List WebhookLogRow
  pub total : ℕ

unfoldable pub code_health : ℕ → Health
code_health code = if ltb code 400 then ok else if ltb code 500 then waiting else fails

unfoldable pub api_row : RequestLog → ApiLogRow
unfolding code_health
api_row r = record { log = r; status = code_health r.status_code }

unfoldable pub delivery_health : WebhookDeliveryStatus → Health
delivery_health delivery_succeeded = ok
delivery_health delivery_failed = fails
delivery_health delivery_pending = waiting

-- `new Map(endpoints.map((e) => [e.id, e.url]))`
unfoldable pub urls_by_id : List (String × String) → List WebhookEndpoint → List (String × String)
urls_by_id m [] = m
urls_by_id m (e ∷ rest) = urls_by_id (map_set e.id e.url m) rest

unfoldable pub webhook_row : List (String × String) → WebhookDelivery → WebhookLogRow
unfolding delivery_health
webhook_row urls d = record {
  id = d.id;
  endpoint_id = d.endpoint_id;
  url = map_get d.endpoint_id urls;
  event_type = d.event_type;
  event_id = d.event_id;
  attempts = d.attempts;
  response_status = d.response_status;
  error = d.error;
  status = delivery_health d.status;
  at = coalesce d.last_attempt_at d.created_at;
}

abbrev pub newest : ℕ → Page
newest take = record { order_by = created_desc; take = some take; skip = 0 }

module _ (P : Platform) where
  unfoldable pub api_logs : ℕ → GatewayConsumer → M (World P.client) ApiLogs
  api_logs take consumer w =
      let items : List ApiLogRow = map api_row (
        P.client.request_log.find_many (λ r. option_eq r.consumer (some consumer.username))
          (newest take) w.logs) in
      done (record { items = items; total = length items }) w

  unfoldable pub deliveries_log : ℕ → List WebhookEndpoint → M (World P.client) WebhookLogs
  deliveries_log take [] w = done (record { items = []; total = 0 }) w
  deliveries_log take (e ∷ rest) w =
      let endpoints : List WebhookEndpoint = e ∷ rest in
      let items : List WebhookLogRow = map (webhook_row (urls_by_id [] endpoints)) (
        P.client.webhook_delivery.find_many (λ d. includes d.endpoint_id (ids_of P endpoints))
          (newest take) w.deliveries) in
      done (record { items = items; total = length items }) w

  unfoldable pub list_webhook_logs : ℕ → String → M (World P.client) WebhookLogs
  list_webhook_logs take consumer_id w = deliveries_log take (endpoints_of P w consumer_id) w

  unfoldable pub webhook_logs : Supply → ℕ → GatewayConsumer → M (World P.client) WebhookLogs
  webhook_logs s take consumer = do
    local ← resolve_consumer P.client s consumer
    list_webhook_logs take local.id
