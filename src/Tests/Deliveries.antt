-- ===== src/Tests/Deliveries.antt =====
-- The theorems on the webhooks, at the small platform.
use comos_pay_community_serv.Base.{
  ◌==◌, ◌<>◌, false, none, some, List, [], ◌∷◌, Memᴰ, ◌≡◌, ◌⊎◌, inr, refl, if◌then◌else◌, fail, ◌*◌,
  nat_eq, done, All, length, min, ◌-◌, String,
}
use comos_pay_community_serv.Prisma.Schema.{
  WebhookEndpoint, WebhookDelivery, payment_intent_succeeded,
}
use comos_pay_community_serv.Prisma.Client.{
  delivery_key, memory_client, memory_client-IsLawfulClient,
}
use comos_pay_community_serv.Prisma.Table.{IsOnce}
use comos_pay_community_serv.Prisma.Memory.{memory_table, get}
use comos_pay_community_serv.Platform.{WebhookEvent, World}
use comos_pay_community_serv.Webhooks.Dispatcher.{
  Transport, Codec, answered, new_delivery, handle_event,
}
use comos_pay_community_serv.Webhooks.Dispatcher.Fanout.{IsTarget, delivered}
use comos_pay_community_serv.Webhooks.Dispatcher.Events.{handle_event_only, handle_event_each}
use comos_pay_community_serv.Webhooks.Endpoints.{
  endpoint_not_found, find_one, update, remove, rotate_secret, list_deliveries, redeliver_owned,
  ping, UpdateWebhookEndpointDto, QueryDeliveriesDto, DeliveryList,
}
use comos_pay_community_serv.Webhooks.Endpoints.Listed.{IsAsked, AreMatching, list_deliveries_lem}
use comos_pay_community_serv.Webhooks.Endpoints.Rotation.{rotate_secret-Replaces}
use comos_pay_community_serv.Webhooks.Endpoints.Owned.{foreign_endpoint_refused}
use comos_pay_community_serv.Tests.{platform, endpoint, paid_order, world_with}

-- The second POST is answered with success.
abbrev pub flaky : Transport
flaky = record {
  clock = λ i. 1000 * i;
  fetch = λ i post. if nat_eq i 0 then answered 500 else answered 200;
  finished = 9000;
}

abbrev pub codec : Codec
codec = record {
  event_name = λ type. "event";
  body = λ id type now intent. intent.id;
  ping_body = λ id now. id;
  hmac_sha256 = λ secret text. secret <> text;
}

abbrev pub delivery : WebhookDelivery
delivery = new_delivery platform codec "d1" endpoint payment_intent_succeeded "evt_1" 500 paid_order

abbrev happened : WebhookEvent
happened = record {
  consumer_username = "shop";
  type = payment_intent_succeeded;
  payload = paid_order;
}

is_target : IsTarget platform (world_with []) happened endpoint
unfolding memory_table get
is_target = record {
  stored = refl;
  enabled = refl;
  owned = refl;
  subscribed = inr (Memᴰ.head refl);
}

distinct :
    (x y : WebhookEndpoint)
    → IsTarget platform (world_with []) happened x
    → IsTarget platform (world_with []) happened y
    → x.id ≡ y.id
    → x ≡ y
distinct x y s t e =
    let a : memory_client.webhook_endpoint.get x.id (world_with []).endpoints ≡ some x = s.stored in
    let b : memory_client.webhook_endpoint.get y.id (world_with []).endpoints ≡ some y = t.stored in
    cc (a, b, e)

handle_event_each_example :
    memory_client.webhook_delivery.get "e1"
      (handle_event platform codec
        (λ e. flaky)
        (λ e. e.id)
        500
        "u"
        happened
        (world_with [])).deliveries
    ≡ some (
        delivered platform codec flaky "e1" 500 endpoint payment_intent_succeeded
          ("evt_" <> "u")
          paid_order)
unfolding memory_table get
handle_event_each_example =
    handle_event_each platform codec memory_client-IsLawfulClient (λ e. flaky) (λ e. e.id) 500 "u"
      happened (world_with []) endpoint distinct refl is_target

handle_event_only_example :
    let w' =
      handle_event platform codec (λ e. flaky) (λ e. e.id) 500 "u" happened (world_with []) in
    (w' ≡ record (world_with []) { deliveries = w'.deliveries })
    × ((memory_client.webhook_delivery.get "e1" w'.deliveries
          ≡ memory_client.webhook_delivery.get "e1" (world_with []).deliveries)
        ⊎ ((e : WebhookEndpoint) × IsTarget platform (world_with []) happened e
            × (e.id ≡ "e1")
            × (memory_client.webhook_delivery.get "e1" (world_with []).deliveries ≡ none)
            × (memory_client.webhook_delivery.get "e1" w'.deliveries
                ≡ some (
                    delivered platform codec flaky e.id 500 e payment_intent_succeeded
                      ("evt_" <> "u")
                      paid_order))))
handle_event_only_example =
    handle_event_only platform codec memory_client-IsLawfulClient (λ e. flaky) (λ e. e.id) 500 "u"
      happened (world_with []) "e1"

abbrev change : UpdateWebhookEndpointDto
change = record { url = none; description = none; enabled = some false; event_types = none }

abbrev query : QueryDeliveriesDto
query = record { status = none; take = 20; skip = 0 }

foreign_endpoint_refused_example :
    (find_one platform "mallory" "e1" (world_with [])
      ≡ fail (endpoint_not_found "e1") (world_with []))
    × (update platform "mallory" "e1" change (world_with [])
        ≡ fail (endpoint_not_found "e1") (world_with []))
    × (remove platform "mallory" "e1" (world_with [])
        ≡ fail (endpoint_not_found "e1") (world_with []))
    × (rotate_secret platform "mallory" "e1" "r" (world_with [])
        ≡ fail (endpoint_not_found "e1") (world_with []))
    × (list_deliveries platform "mallory" "e1" query (world_with [])
        ≡ fail (endpoint_not_found "e1") (world_with []))
    × (redeliver_owned platform codec flaky "mallory" "e1" "d1" (world_with [])
        ≡ fail (endpoint_not_found "e1") (world_with []))
    × (ping platform codec flaky "u" "mallory" "e1" (world_with [])
        ≡ fail (endpoint_not_found "e1") (world_with []))
unfolding memory_table get
foreign_endpoint_refused_example =
    foreign_endpoint_refused platform codec memory_client-IsLawfulClient flaky "mallory" "e1" "r"
      "u" "d1" change query (world_with []) (inr (endpoint, refl, refl))

abbrev pub one_delivery : World memory_client
unfolding memory_table
one_delivery = record (world_with []) { deliveries = delivery ∷ [] }

list_deliveries_lem_example :
    (l : DeliveryList) × (list_deliveries platform "shop" "e1" query one_delivery
      ≡ done l one_delivery)
    × ((rows : List WebhookDelivery) × AreMatching platform memory_client-IsLawfulClient
          one_delivery "e1" none rows
        × (l.total ≡ length rows))
    × All
        (λ d.
          (memory_client.webhook_delivery.get d.id one_delivery.deliveries ≡ some d)
          × IsAsked "e1" none d)
        l.items
    × IsOnce delivery_key l.items
    × (length l.items ≡ min 20 (l.total - 0))
unfolding memory_table get
list_deliveries_lem_example =
    list_deliveries_lem platform memory_client-IsLawfulClient "shop" "e1" query one_delivery
      endpoint refl refl

rotate_secret-Replaces_example :
    (w' : World memory_client) × (rotate_secret platform "shop" "e1" "r" (world_with [])
      ≡ done (record endpoint { secret = "whsec_r" }) w')
    × ((j : String)
        → memory_client.webhook_endpoint.get j w'.endpoints ≡ (
            if "e1" == j
            then some (record endpoint { secret = "whsec_r" })
            else memory_client.webhook_endpoint.get j (world_with []).endpoints))
    × (w' ≡ record (world_with []) { endpoints = w'.endpoints })
unfolding memory_table get
rotate_secret-Replaces_example =
    rotate_secret-Replaces platform memory_client-IsLawfulClient "shop" "e1" "r" (world_with [])
      endpoint refl refl
