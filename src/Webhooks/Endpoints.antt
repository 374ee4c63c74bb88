-- ===== src/Webhooks/Endpoints.antt =====
-- src/webhooks/webhooks.service.ts: the endpoints of a consumer and their deliveries.
pub mod Listed
pub mod Owned
pub mod Rotation
use comos_pay_community_serv.Base.{
  ℕ, String, ◌<>◌, Bool, true, false, ◌&&◌, Option, none, some, List, [], ◌==◌, coalesce, map, M,
  Run, done, fail, pure, or_throw, not_found, Exception, ◌>>=◌,
}
use comos_pay_community_serv.Prisma.Schema.{
  WebhookEndpoint, WebhookDelivery, WebhookEventType, WebhookDeliveryStatus, delivery_status_eq,
}
use comos_pay_community_serv.Prisma.Table.{Page, written, missing, conflict, created_desc, whole}
use comos_pay_community_serv.Gateway.Consumer.{GatewayConsumer}
use comos_pay_community_serv.Platform.{
  Platform, World, Supply, resolve_consumer, owned_by, not_found_error, unique_error,
}
use comos_pay_community_serv.Webhooks.Dispatcher.{
  Transport, Codec, PingResult, redeliver, ping_endpoint,
}

-- `SafeWebhookEndpoint`: an endpoint without its secret.
pub record SafeWebhookEndpoint : Type 0 where
  pub id : String
  pub consumer_id : String
  pub url : String
  pub description : Option String
  pub enabled : Bool
  pub event_types : List WebhookEventType
  pub created_at : ℕ

abbrev pub strip : WebhookEndpoint → SafeWebhookEndpoint
strip e = record {
  id = e.id;
  consumer_id = e.consumer_id;
  url = e.url;
  description = e.description;
  enabled = e.enabled;
  event_types = e.event_types;
  created_at = e.created_at;
}

-- src/webhooks/dto
pub record CreateWebhookEndpointDto : Type 0 where
  pub url : String
  pub description : Option String
  pub event_types : Option (List WebhookEventType)

-- Of the description, `none` is undefined and `some none` is null.
pub record UpdateWebhookEndpointDto : Type 0 where
  pub url : Option String
  pub description : Option (Option String)
  pub enabled : Option Bool
  pub event_types : Option (List WebhookEventType)

pub record QueryDeliveriesDto : Type 0 where
  pub status : Option WebhookDeliveryStatus
  pub take : ℕ
  pub skip : ℕ

pub record DeliveryList : Type 0 where
  pub items : List WebhookDelivery
  pub total : ℕ
  pub take : ℕ
  pub skip : ℕ

-- `whsec_` and the 24 random bytes in hexadecimal, which are drawn elsewhere.
abbrev pub generate_secret : String → String
generate_secret random = "whsec_" <> random

abbrev pub endpoint_not_found : String → Exception
endpoint_not_found id = not_found ("Webhook endpoint " <> (id <> " not found"))

abbrev pub delivery_not_found : String → Exception
delivery_not_found id = not_found ("Delivery " <> (id <> " not found"))

abbrev pub endpoint_patch : UpdateWebhookEndpointDto → WebhookEndpoint → WebhookEndpoint
endpoint_patch dto e = record e {
  url = coalesce dto.url e.url;
  description = coalesce dto.description e.description;
  enabled = coalesce dto.enabled e.enabled;
  event_types = coalesce dto.event_types e.event_types;
}

module _ (P : Platform) where
  unfoldable pub get_owned : String → String → M (World P.client) WebhookEndpoint
  get_owned username id w =
      or_throw
        (P.client.webhook_endpoint.find_first
          (λ e. e.id == id && owned_by P.client w username e.consumer_id) w.endpoints)
        (endpoint_not_found id) w

  unfoldable pub update_endpoint :
      String → (WebhookEndpoint → WebhookEndpoint) → M (World P.client) WebhookEndpoint
  update_endpoint id change w = elim (P.client.webhook_endpoint.update id change w.endpoints) [
    | written e t ↦ done e (record w { endpoints = t })
    | missing ↦ fail not_found_error w
    | conflict ↦ fail unique_error w
  ]

  unfoldable pub insert_endpoint : WebhookEndpoint → M (World P.client) WebhookEndpoint
  insert_endpoint e w = elim (P.client.webhook_endpoint.create e w.endpoints) [
    | none ↦ fail unique_error w
    | some t ↦ done e (record w { endpoints = t })
  ]

  -- The deliveries go with their endpoint (`onDelete: Cascade`).
  unfoldable pub delete_endpoint : String → M (World P.client) (Unit {0})
  delete_endpoint id w = elim (P.client.webhook_endpoint.delete id w.endpoints) [
    | none ↦ fail not_found_error w
    | some (e, t) ↦ done tt (record w {
      endpoints = t;
      deliveries = P.client.webhook_delivery.delete_many (λ d. d.endpoint_id == id) w.deliveries;
    })
  ]

  unfoldable pub create :
      Supply
      → String
      → GatewayConsumer
      → CreateWebhookEndpointDto
      → M (World P.client) WebhookEndpoint
  create s random consumer dto = do
    local ← resolve_consumer P.client s consumer
    insert_endpoint (record {
      id = s.id;
      consumer_id = local.id;
      url = dto.url;
      secret = generate_secret random;
      description = dto.description;
      enabled = true;
      event_types = coalesce dto.event_types [];
      created_at = s.now;
    })

  unfoldable pub find_all : String → M (World P.client) (List SafeWebhookEndpoint)
  find_all username w =
      done
        (map strip (
          P.client.webhook_endpoint.find_many (λ e. owned_by P.client w username e.consumer_id)
            (whole created_desc) w.endpoints))
        w

  unfoldable pub find_one : String → String → M (World P.client) SafeWebhookEndpoint
  find_one username id = do e ← get_owned username id; pure (strip e)

  unfoldable pub update :
      String → String → UpdateWebhookEndpointDto → M (World P.client) SafeWebhookEndpoint
  update username id dto = do
    owned ← get_owned username id
    updated ← update_endpoint id (endpoint_patch dto)
    pure (strip updated)

  -- The id of the answer `{ id, deleted: true }`.
  unfoldable pub remove : String → String → M (World P.client) String
  remove username id = do owned ← get_owned username id; gone ← delete_endpoint id; pure id

  unfoldable pub rotate_secret : String → String → String → M (World P.client) WebhookEndpoint
  rotate_secret username id random = do
    owned ← get_owned username id
    update_endpoint id (λ e. record e { secret = generate_secret random })

  abbrev pub listed : String → Option WebhookDeliveryStatus → WebhookDelivery → Bool
  listed id none d = d.endpoint_id == id
  listed id (some status) d = d.endpoint_id == id && delivery_status_eq d.status status

  unfoldable pub page_of_deliveries : String → QueryDeliveriesDto → M (World P.client) DeliveryList
  page_of_deliveries id query w =
      let page : Page = record {
        order_by = created_desc;
        take = some query.take;
        skip = query.skip;
      } in
      done
        (record {
          items = P.client.webhook_delivery.find_many (listed id query.status) page w.deliveries;
          total = P.client.webhook_delivery.count (listed id query.status) w.deliveries;
          take = query.take;
          skip = query.skip;
        })
        w

  unfoldable pub list_deliveries :
      String → String → QueryDeliveriesDto → M (World P.client) DeliveryList
  list_deliveries username id query = do owned ← get_owned username id; page_of_deliveries id query

  unfoldable pub find_delivery : String → String → M (World P.client) WebhookDelivery
  find_delivery endpoint_id id w =
      or_throw
        (P.client.webhook_delivery.find_first (λ d. d.id == id && d.endpoint_id == endpoint_id)
          w.deliveries)
        (delivery_not_found id) w

module _ (P : Platform) (C : Codec) where
  unfoldable pub redeliver_owned :
      Transport → String → String → String → M (World P.client) WebhookDelivery
  redeliver_owned T username endpoint_id delivery_id = do
    owned ← get_owned P username endpoint_id
    delivery ← find_delivery P endpoint_id delivery_id
    redeliver P C T delivery

  unfoldable pub ping : Transport → String → String → String → M (World P.client) PingResult
  ping T uuid username id = do
    endpoint ← get_owned P username id
    pure (ping_endpoint P C T uuid endpoint)
