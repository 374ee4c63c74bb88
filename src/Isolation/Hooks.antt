-- ===== src/Isolation/Hooks.antt =====
-- Each method on endpoints and deliveries spares the rows of other consumers.
use comos_pay_community_serv.Isolation.Spares.{
  IsAnothers, Spares, IsSparing, IsSparing-bind, IsSparing-pure, Spares-refl, bind-Spares,
  owned-apart, reader-IsSparing, resolve_consumer-IsSparing, untouched,
}
use comos_pay_community_serv.Webhooks.Endpoints.{
  create, update, remove, CreateWebhookEndpointDto, UpdateWebhookEndpointDto, delete_endpoint,
  delivery_not_found, endpoint_patch, find_delivery, get_owned, ping, redeliver_owned,
  rotate_secret, update_endpoint,
}
use comos_pay_community_serv.Webhooks.Dispatcher.{
  Attempted, Codec, Transport, attempt, finalize, redeliver,
}
use comos_pay_community_serv.Base.{
  M, Option-cases, String, arith, done, false, inl, inr, refl, some, subst, sym, true, world, ℕ,
  ◌&&◌, ◌==◌, ◌≡◌,
}
use comos_pay_community_serv.Gateway.Consumer.{GatewayConsumer}
use comos_pay_community_serv.Prisma.Client.{IsLawfulClient, endpoint_key}
use comos_pay_community_serv.Http.ReadOnly.{IsReader, IsReader-or_throw, get_owned-IsReader}
use comos_pay_community_serv.Platform.{Platform, Supply, World, owned_by, resolve_consumer}
use comos_pay_community_serv.Prisma.Schema.{WebhookDelivery, WebhookEndpoint, no_clash}
use comos_pay_community_serv.Isolation.Rows.{
  delete_endpoint-Spares, insert_endpoint-IsSparing, update_endpoint-Spares,
}
use comos_pay_community_serv.Tests.{endpoint}
use comos_pay_community_serv.Prisma.Scoped.{scoped_some}

module _ (P : Platform) where
  -- The world but for the deliveries.
  abbrev WritesDeliveries : {A : Type 0} → M (World P.client) A → Type 0
  WritesDeliveries m =
      (w : World P.client) → world (m w) ≡ record w { deliveries = (world (m w)).deliveries }

  finalize-WritesDeliveries :
      (C : Codec) (id : String) (a : Attempted) (now : ℕ) → WritesDeliveries (finalize P C id a now)
  unfolding finalize
  finalize-WritesDeliveries C id a now w = ground arith

  redeliver-WritesDeliveries :
      (C : Codec) (T : Transport) (d : WebhookDelivery) → WritesDeliveries (redeliver P C T d)
  unfolding redeliver attempt
  redeliver-WritesDeliveries C T d w =
      elim (Option-cases (P.client.webhook_endpoint.get d.endpoint_id w.endpoints)) [
        | inl e ↦ rw (e, redeliver) refl
        | inr (endpoint, e) ↦ rw (e, redeliver) (finalize-WritesDeliveries C d.id _ T.finished w)
      ]

  find_delivery-IsReader : (endpoint_id id : String) → IsReader (find_delivery P endpoint_id id)
  unfolding find_delivery
  find_delivery-IsReader endpoint_id id w =
      IsReader-or_throw
        (P.client.webhook_delivery.find_first (λ d. d.id == id && d.endpoint_id == endpoint_id)
          w.deliveries)
        (delivery_not_found id) w

module _ (P : Platform) (law : IsLawfulClient P.client) (username : String) where
  redeliver-IsSparing :
      (C : Codec) (T : Transport) (d : WebhookDelivery) → IsSparing P username (redeliver P C T d)
  redeliver-IsSparing C T d w =
      subst (Spares P username w) (sym (redeliver-WritesDeliveries P C T d w))
        (untouched P username w _ refl refl refl refl refl)

  -- The endpoint that the caller finds is not another consumer's.
  get_owned-apart :
      (id : String) (w v : World P.client) (r q : WebhookEndpoint)
      → get_owned P username id w ≡ done r v
      → P.client.webhook_endpoint.get id v.endpoints ≡ some q
      → IsAnothers P v username q.consumer_id
      → false ≡ true
  unfolding get_owned
  get_owned-apart id w v r q h g =
      elim (Option-cases (
        P.client.webhook_endpoint.find_first
          (λ e. e.id == id && owned_by P.client w username e.consumer_id) w.endpoints)) [
            | inl none_found ↦ absurd (ground arith)
            | inr (r', found_one) ↦
                let (there, own) =
                  scoped_some endpoint_key no_clash P.client.webhook_endpoint law.webhook_endpoint
                    (λ e. owned_by P.client w username e.consumer_id) id w.endpoints r' found_one in
                let v_is : w ≡ v = ground arith in
                let stands : P.client.webhook_endpoint.get id w.endpoints ≡ some q =
                  subst
                    (λ (x : World P.client). P.client.webhook_endpoint.get id x.endpoints ≡ some q)
                    (sym v_is) g in
                let one : r' ≡ q = cc (there, stands) in
                subst (λ x. IsAnothers P x username q.consumer_id → false ≡ true) v_is
                  (owned-apart P username w q.consumer_id (
                    subst
                      (λ (x : WebhookEndpoint). owned_by P.client w username x.consumer_id ≡ true)
                      one own))
          ]

  owned-IsSparing : (id : String) → IsSparing P username (get_owned P username id)
  owned-IsSparing id =
      reader-IsSparing P username (get_owned P username id) (get_owned-IsReader P username id)

  pub update-IsSparing :
      (id : String) (dto : UpdateWebhookEndpointDto)
      → IsSparing P username (update P username id dto)
  unfolding update
  update-IsSparing id dto w =
      bind-Spares P username (get_owned P username id) _ w (owned-IsSparing id w) λ r v e.
        bind-Spares P username (update_endpoint P id (endpoint_patch dto)) _ v
          (update_endpoint-Spares P law username id (endpoint_patch dto) v (λ q. refl)
            λ q. get_owned-apart id w v r q e)
          λ u v' _. Spares-refl P username v'

  pub remove-IsSparing : (id : String) → IsSparing P username (remove P username id)
  unfolding remove
  remove-IsSparing id w =
      bind-Spares P username (get_owned P username id) _ w (owned-IsSparing id w) λ r v e.
        bind-Spares P username (delete_endpoint P id) _ v
          (delete_endpoint-Spares P law username id v λ q. get_owned-apart id w v r q e)
          λ u v' _. Spares-refl P username v'

  pub rotate_secret-IsSparing :
      (id random : String) → IsSparing P username (rotate_secret P username id random)
  unfolding rotate_secret
  rotate_secret-IsSparing id random w =
      bind-Spares P username (get_owned P username id) _ w (owned-IsSparing id w) λ r v e.
        update_endpoint-Spares P law username id _ v (λ q. refl) λ q. get_owned-apart id w v r q e

  pub redeliver_owned-IsSparing :
      (C : Codec) (T : Transport) (id delivery_id : String)
      → IsSparing P username (redeliver_owned P C T username id delivery_id)
  unfolding redeliver_owned
  redeliver_owned-IsSparing C T id delivery_id =
      IsSparing-bind P username (get_owned P username id) _ (owned-IsSparing id) λ e.
        IsSparing-bind P username (find_delivery P id delivery_id) _
          (reader-IsSparing P username (find_delivery P id delivery_id)
            (find_delivery-IsReader P id delivery_id))
          (redeliver-IsSparing C T)

  pub ping-IsSparing :
      (C : Codec) (T : Transport) (uuid id : String)
      → IsSparing P username (ping P C T uuid username id)
  unfolding ping
  ping-IsSparing C T uuid id =
      IsSparing-pure P username (get_owned P username id) _ (owned-IsSparing id)

module _ (P : Platform) (law : IsLawfulClient P.client) where
  pub create-IsSparing :
      (s : Supply) (random : String) (c : GatewayConsumer) (dto : CreateWebhookEndpointDto)
      → IsSparing P c.username (create P s random c dto)
  unfolding create
  create-IsSparing s random c dto =
      IsSparing-bind P c.username (resolve_consumer P.client s c) _
        (resolve_consumer-IsSparing P law s c) λ local. insert_endpoint-IsSparing P law c.username _
