-- ===== src/Webhooks/Endpoints/Listed.antt =====
-- The list that `listDeliveries` of src/webhooks/webhooks.service.ts answers with.
use comos_pay_community_serv.Base.{
  ◌-◌, min, String, Bool, true, ◌&&◌, ◌==◌, eq_iff, Option, none, some, ◌≡◌, refl, arith, done,
  length, All, All-map, List, Memᴰ, inl, inr, Option-cases, and_true, ◌>>=◌,
}
use comos_pay_community_serv.Prisma.Schema.{
  WebhookEndpoint, WebhookDelivery, WebhookDeliveryStatus, delivery_status_eq,
}
use comos_pay_community_serv.Prisma.Client.{IsLawfulClient, delivery_key}
use comos_pay_community_serv.Prisma.Table.{Page, created_desc, whole, unordered, IsOnce}
use comos_pay_community_serv.Platform.{Platform, World, owned_by}
use comos_pay_community_serv.Webhooks.Endpoints.{
  QueryDeliveriesDto, DeliveryList, listed, get_owned, page_of_deliveries, list_deliveries,
}

-- The delivery is of the endpoint, and has the status that the query asks for, if it asks for one.
abbrev pub IsAsked : String → Option WebhookDeliveryStatus → WebhookDelivery → Type 0
IsAsked id asked d =
    (d.endpoint_id ≡ id) × ((s : WebhookDeliveryStatus) → asked ≡ some s → d.status ≡ s)

delivery_status_eq-true : (a b : WebhookDeliveryStatus) → delivery_status_eq a b ≡ true → a ≡ b
delivery_status_eq-true a b h = ground arith

delivery_status_eq_refl : (s : WebhookDeliveryStatus) → delivery_status_eq s s ≡ true
delivery_status_eq_refl s = ground arith

module _ (P : Platform) (law : IsLawfulClient P.client) where
  listed-true :
      (id : String) (asked : Option WebhookDeliveryStatus) (d : WebhookDelivery)
      → listed P id asked d ≡ true
      → IsAsked id asked d
  listed-true id none d h = ((eq_iff d.endpoint_id id).0 h, λ s e. absurd (ground arith))
  listed-true id (some status) d h =
      let (same, t) = and_true (d.endpoint_id == id) _ h in
      (
        (eq_iff d.endpoint_id id).0 same,
        λ s e. delivery_status_eq-true d.status s (ground (arith, t, e)),
      )

  true-listed :
      (id : String) (asked : Option WebhookDeliveryStatus) (d : WebhookDelivery)
      → IsAsked id asked d
      → listed P id asked d ≡ true
  true-listed id none d (same, h) = (eq_iff d.endpoint_id id).1 same
  true-listed id (some status) d (same, h) =
      ground
        (arith, (eq_iff d.endpoint_id id).1 same, delivery_status_eq_refl status, h status refl)

  -- The deliveries of the endpoint that match the query: each in the table, once, and no other.
  abbrev pub AreMatching :
      World P.client → String → Option WebhookDeliveryStatus → List WebhookDelivery → Type 0
  AreMatching w id asked rows =
      IsOnce delivery_key rows
      × All (λ d. (P.client.webhook_delivery.get d.id w.deliveries ≡ some d) × IsAsked id asked d)
          rows
      × ((j : String) (d : WebhookDelivery)
          → P.client.webhook_delivery.get j w.deliveries ≡ some d
          → IsAsked id asked d
          → Memᴰ d rows)

  pub get_owned-owned :
      (username id : String) (w : World P.client) (e : WebhookEndpoint)
      → P.client.webhook_endpoint.get id w.endpoints ≡ some e
      → owned_by P.client w username e.consumer_id ≡ true
      → (r : WebhookEndpoint) × (get_owned P username id w ≡ done r w)
  unfolding get_owned
  get_owned-owned username id w e there own =
      elim (Option-cases (P.client.webhook_endpoint.find_first mine w.endpoints)) [
        | inl h ↦ absurd (
            ground (
              arith,
              law.webhook_endpoint.find_first_none mine w.endpoints id e h there,
              (eq_iff e.id id).1 (law.webhook_endpoint.key-get id w.endpoints e there),
              own,
            ))
        | inr (r, h) ↦ (r, rw h refl)
      ]
    where
      mine : WebhookEndpoint → Bool
      mine r = r.id == id && owned_by P.client w username r.consumer_id

  -- For the owner of the endpoint, the list is read without a change of the world. `total` is the
  -- number of the deliveries that stand in the table, are of the endpoint and have the status that
  -- the query asks for, if it asks for one: the length of a list that holds each of them once and no
  -- other. Each delivery on the answer is such a delivery, none is there twice, and the answer holds
  -- as many as are left of `total` after `skip`, up to `take`.
  pub list_deliveries_lem :
      (username id : String) (query : QueryDeliveriesDto) (w : World P.client) (e : WebhookEndpoint)
      → P.client.webhook_endpoint.get id w.endpoints ≡ some e
      → owned_by P.client w username e.consumer_id ≡ true
      → (l : DeliveryList) × (list_deliveries P username id query w ≡ done l w)
        × ((rows : List WebhookDelivery) × AreMatching w id query.status rows
            × (l.total ≡ length rows))
        × All
            (λ d.
              (P.client.webhook_delivery.get d.id w.deliveries ≡ some d)
              × IsAsked id query.status d)
            l.items
        × IsOnce delivery_key l.items
        × (length l.items ≡ min query.take (l.total - query.skip))
  unfolding list_deliveries page_of_deliveries
  list_deliveries_lem username id query w e there own =
      let page : Page = record {
        order_by = created_desc;
        take = some query.take;
        skip = query.skip;
      } in
      let (r, k) = get_owned-owned username id w e there own in
      let l : DeliveryList = record {
        items = P.client.webhook_delivery.find_many (listed P id query.status) page w.deliveries;
        total = P.client.webhook_delivery.count (listed P id query.status) w.deliveries;
        take = query.take;
        skip = query.skip;
      } in
      (
        l,
        rw (k, ◌>>=◌) refl,
        (
          P.client.webhook_delivery.find_many (listed P id query.status) (whole unordered)
              w.deliveries,
          (
            law.webhook_delivery.find_many_once (listed P id query.status) (whole unordered)
                w.deliveries,
            All-map (λ d k. (k.0, listed-true id query.status d k.1)) _
                (law.webhook_delivery.find_many_sound (listed P id query.status) (whole unordered)
                  w.deliveries),
            λ j d there h.
                law.webhook_delivery.find_many_complete (listed P id query.status) unordered
                  w.deliveries j d there (true-listed id query.status d h),
          ),
          omega (
            arith,
            law.webhook_delivery.length-find_many (listed P id query.status) (whole unordered)
                w.deliveries,
          ),
        ),
        All-map (λ d k. (k.0, listed-true id query.status d k.1)) l.items
            (law.webhook_delivery.find_many_sound (listed P id query.status) page w.deliveries),
        law.webhook_delivery.find_many_once (listed P id query.status) page w.deliveries,
        law.webhook_delivery.length-find_many (listed P id query.status) page w.deliveries,
      )
